-- ===== src/Jobs/Names/Laws.antt =====
-- The type of the job names is what the guard of src/jobs/registry.ts tests.
use queue_worker_kit.Prelude.{Text, text_eq, text_eq_iff, true, map, ◌≡◌, ◌↔◌, refl, some}
use queue_worker_kit.Jobs.Types.{Zod}
use queue_worker_kit.Jobs.Definitions.{send_email_job, generate_report_job, cleanup_job}
use queue_worker_kit.Jobs.Registry.{is_job_name, job_names, get_job_definition}
use queue_worker_kit.Jobs.Registry.Laws.{
  is_email, is_report, is_cleanup, is_other, name_case, definition_by_name, definition_of_other,
}
use queue_worker_kit.Jobs.Names.{
  JobName, email_send, report_generate, maintenance_cleanup, name_text, job_name_list,
  job_definition,
}

pub get_job_definition-name_text :
    (zod : Zod) (n : JobName) → get_job_definition zod (name_text n) ≡ some (job_definition zod n)
get_job_definition-name_text zod email_send = (definition_by_name zod).0
get_job_definition-name_text zod report_generate = (definition_by_name zod).1
get_job_definition-name_text zod maintenance_cleanup = (definition_by_name zod).2

same_name : (m n : JobName) → text_eq (name_text m) (name_text n) ≡ true → m ≡ n
unfolding text_eq
same_name email_send email_send h = refl
same_name report_generate report_generate h = refl
same_name maintenance_cleanup maintenance_cleanup h = refl
same_name email_send report_generate h = cc
same_name email_send maintenance_cleanup h = cc
same_name report_generate email_send h = cc
same_name report_generate maintenance_cleanup h = cc
same_name maintenance_cleanup email_send h = cc
same_name maintenance_cleanup report_generate h = cc

name_text_injective : (m n : JobName) → name_text m ≡ name_text n → m ≡ n
name_text_injective m n h = same_name m n ((text_eq_iff (name_text m) (name_text n)).1 h)

name-job_definition : (zod : Zod) (n : JobName) → (job_definition zod n).name ≡ name_text n
unfolding send_email_job generate_report_job cleanup_job
name-job_definition zod email_send = refl
name-job_definition zod report_generate = refl
name-job_definition zod maintenance_cleanup = refl

guarded :
    (zod : Zod) (name : Text) → is_job_name zod name ≡ true → (n : JobName) × (name ≡ name_text n)
unfolding is_job_name
guarded zod name h = elim (name_case name) [
  | is_email e ↦ (email_send, e)
  | is_report e ↦ (report_generate, e)
  | is_cleanup e ↦ (maintenance_cleanup, e)
  | is_other ne nr nc ↦ cc (rw (definition_of_other zod name ne nr nc) at h)
]

-- The guard `name is JobName` is exact: it accepts the texts of the type's names and no other, each
-- the text of one name alone; `JOB_NAMES` lists these texts, and looking a name up gives the
-- definition that its type promises, under that name, never an absent one.
pub is_job_name-JobName :
    (zod : Zod)
    → ((name : Text) → (is_job_name zod name ≡ true) ↔ ((n : JobName) × (name ≡ name_text n)))
      × ((m n : JobName) → name_text m ≡ name_text n → m ≡ n)
      × (job_names zod ≡ map name_text job_name_list)
      × ((n : JobName)
          → (get_job_definition zod (name_text n) ≡ some (job_definition zod n))
            × ((job_definition zod n).name ≡ name_text n))
unfolding is_job_name job_names
is_job_name-JobName zod = (
  λ name. (guarded zod name, λ (n, e). rw (e, get_job_definition-name_text zod n) refl),
  name_text_injective,
  refl,
  λ n. (get_job_definition-name_text zod n, name-job_definition zod n),
)
