-- ===== src/Cloud/Agent/Status.antt =====
-- `status` and `safe_error_code` of src/cloud/agent.rs.
use mb_printer_cli.Common.{
  ℕ, zero, suc, ◌≡◌, inl, inr, refl, Bool, true, not, ◌&&◌, ◌||◌, Option, none, some, List, [], ◌∷◌,
  ◌++◌, map, arith, if◌then◌else◌, leb, ◌==◌, take, keep, All, Bool-cases,
}
use mb_printer_cli.Common.Int.{ℤ, pos, negsuc}
use mb_printer_cli.Common.Text.{Text, codes, is_empty, is_ascii_alphanumeric, to_ascii_lowercase}
use mb_printer_cli.Common.Strings.{split, put_first}
use mb_printer_cli.Job.{
  Job, JobState, queued, running, cancel_requested, cancelled_before_send, cancelled_partial,
  outcome_unknown, completed, failed, terminal,
}

-- `wire::JobStatus`; the identifier stands for its text.
pub record JobStatus : Type 0 where
  pub job_id : ℕ
  pub state : Text
  pub terminal : Bool
  pub last_completed_action : ℤ
  pub bytes_sent : ℕ
  pub total_bytes : ℕ
  pub potentially_accepted_write : Bool
  pub error_code : Text
  pub action_count : ℕ
  pub item : ℕ
  pub items : ℕ
  pub copy : ℕ
  pub copies : ℕ

unfoldable pub state_name : JobState → Text
state_name queued = codes "queued"
state_name running = codes "running"
state_name cancel_requested = codes "cancel-requested"
state_name cancelled_before_send = codes "cancelled-before-send"
state_name cancelled_partial = codes "cancelled-partial"
state_name outcome_unknown = codes "outcome-unknown"
state_name completed = codes "completed"
state_name failed = codes "failed"

unfoldable pub normalize : ℕ → ℕ
normalize c = if is_ascii_alphanumeric c then to_ascii_lowercase c else 45

-- `[Vec<&str>]::join("-")`
unfoldable pub join : List Text → Text
join [] = []
join (part ∷ []) = part
join (part ∷ next ∷ parts) = let rest = join (next ∷ parts) in part ++ (45 ∷ rest)

unfoldable pub safe_error_code : Text → Text
unfolding normalize join
safe_error_code error =
    join (take 8 (keep (λ part. not (is_empty part)) (split 45 (map normalize (take 80 error)))))

abbrev action_number : Option ℕ → ℤ
action_number none = negsuc 0
action_number (some n) = pos n

abbrev error_code_of : Option Text → Text
error_code_of none = []
error_code_of (some error) = safe_error_code error

unfoldable pub status : Job → JobStatus
unfolding state_name
status j = record {
  job_id = j.id;
  state = state_name j.state;
  terminal = terminal j;
  last_completed_action = action_number j.last_completed_action;
  bytes_sent = j.bytes_written;
  total_bytes = j.total_bytes;
  potentially_accepted_write = j.potentially_accepted_write;
  error_code = error_code_of j.error;
  action_count = j.action_count;
  item = j.batch_item;
  items = j.batch_items;
  copy = j.batch_copy;
  copies = j.batch_copies;
}

-- A digit, a lowercase letter of ASCII, or a hyphen.
abbrev pub is_safe : ℕ → Bool
is_safe c = leb 48 c && leb c 57 || leb 97 c && leb c 122 || c == 45

abbrev pub IsSafe : Text → Type 0
IsSafe s = All (λ c. is_safe c ≡ true) s

normalize_safe : (c : ℕ) → is_safe (normalize c) ≡ true
unfolding normalize is_ascii_alphanumeric to_ascii_lowercase
normalize_safe c = ground arith

map-normalize : (s : Text) → IsSafe (map normalize s)
map-normalize [] = tt
map-normalize (c ∷ s) = (normalize_safe c, map-normalize s)

put_first-All :
    (c : ℕ) (parts : List Text)
    → is_safe c ≡ true
    → All IsSafe parts
    → All IsSafe (put_first c parts)
put_first-All c [] h p = ((h, tt), tt)
put_first-All c (part ∷ parts) h p = ((h, p.0), p.1)

split-All : (s : Text) → IsSafe s → All IsSafe (split 45 s)
unfolding split
split-All [] h = (tt, tt)
split-All (c ∷ s) h = elim (Bool-cases (c == 45)) [
  | inl e ↦ rw e (tt, split-All s h.1)
  | inr e ↦ rw e (put_first-All c (split 45 s) h.0 (split-All s h.1))
]

nonempty-All :
    (parts : List Text) → All IsSafe parts → All IsSafe (keep (λ part. not (is_empty part)) parts)
nonempty-All [] h = tt
nonempty-All (part ∷ parts) h = elim (Bool-cases (not (is_empty part))) [
  | inl e ↦ rw e (h.0, nonempty-All parts h.1)
  | inr e ↦ rw e (nonempty-All parts h.1)
]

take-All : (n : ℕ) (parts : List Text) → All IsSafe parts → All IsSafe (take n parts)
take-All zero parts h = tt
take-All (suc n) [] h = tt
take-All (suc n) (part ∷ parts) h = (h.0, take-All n parts h.1)

append-IsSafe : (a b : Text) → IsSafe a → IsSafe b → IsSafe (a ++ b)
append-IsSafe [] b h k = k
append-IsSafe (c ∷ a) b h k = (h.0, append-IsSafe a b h.1 k)

join-IsSafe : (parts : List Text) → All IsSafe parts → IsSafe (join parts)
unfolding join
join-IsSafe [] h = tt
join-IsSafe (part ∷ []) h = h.0
join-IsSafe (part ∷ next ∷ parts) h =
    append-IsSafe part (45 ∷ join (next ∷ parts)) h.0 (refl, join-IsSafe (next ∷ parts) h.1)

-- Whatever the error of a job says, its code holds digits, lowercase letters of ASCII and hyphens
-- only.
pub safe_error_code-IsSafe : (error : Text) → IsSafe (safe_error_code error)
unfolding safe_error_code
safe_error_code-IsSafe error =
    let parts = split-All (map normalize (take 80 error)) (map-normalize (take 80 error)) in
    join-IsSafe
      (take 8 (keep (λ part. not (is_empty part)) (split 45 (map normalize (take 80 error)))))
      (take-All 8 _ (nonempty-All (split 45 (map normalize (take 80 error))) parts))
