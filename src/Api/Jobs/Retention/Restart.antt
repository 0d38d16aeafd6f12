-- ===== src/Api/Jobs/Retention/Restart.antt =====
-- What a restart of the service makes of the retained jobs (src/api/jobs.rs).
use mb_printer_cli.Common.{
  ℕ, ◌-◌, ◌≡◌, ◌≤◌, refl, Bool, true, Option, none, some, List, [], ◌∷◌, map, arith, if◌then◌else◌,
  length, length-drop,
}
use mb_printer_cli.Common.Lists.{All}
use mb_printer_cli.Common.Map.{Entries}
use mb_printer_cli.Common.Sort.{sort_by, length-collect_from}
use mb_printer_cli.Common.Values.{collect_from-Entries}
use mb_printer_cli.Job.{Job, terminal}
use mb_printer_cli.Api.Jobs.Retention.{
  job_id, updated_le, most_recent, restart_job, load_jobs, or_empty,
}

restart_job-terminal : (j : Job) → terminal (restart_job j) ≡ true
unfolding restart_job terminal
restart_job-terminal j = ground arith

map-terminal : (jobs : List Job) → All (λ j. terminal j ≡ true) (map restart_job jobs)
map-terminal [] = tt
map-terminal (j ∷ jobs) = (restart_job-terminal j, map-terminal jobs)

length-map : (jobs : List Job) → length (map restart_job jobs) ≡ length jobs
length-map [] = refl
length-map (j ∷ jobs) = omega (arith, length-map jobs)

length-most_recent : (max : ℕ) (jobs : List Job) → length (most_recent max jobs) ≤ max
unfolding most_recent
length-most_recent max jobs =
    let sorted = sort_by updated_le jobs in ground (arith, length-drop (length sorted - max) sorted)

-- Whatever the file holds, after a restart every job is terminal and there are at most as many as
-- are to be retained.
pub load_jobs_settled :
    (has_path : Bool) (file : Option (List Job)) (max : ℕ)
    → Entries (λ k j. terminal j ≡ true) (load_jobs has_path file max)
      × (length (load_jobs has_path file max) ≤ max)
unfolding load_jobs
load_jobs_settled has_path file max = (
  collect_from-Entries job_id (λ j. terminal j ≡ true) [] _ tt
      (map-terminal (most_recent max (if has_path then or_empty file else []))),
  omega (
    arith,
    length-collect_from job_id []
        (map restart_job (most_recent max (if has_path then or_empty file else []))),
    length-map (most_recent max (if has_path then or_empty file else [])),
    length-most_recent max (if has_path then or_empty file else []),
  ),
)

-- The job of the earlier service, as the restart leaves it.
abbrev pub restarted : Option Job → Option Job
restarted none = none
restarted (some j) = some (restart_job j)
