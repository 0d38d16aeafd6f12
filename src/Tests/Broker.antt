-- ===== src/Tests/Broker.antt =====
-- Concrete deliveries of the broker (src/cloud/store.rs).
use mb_printer_cli.Common.{
  ℕ, ◌≡◌, refl, Bool, true, false, Option, none, some, List, [], ◌∷◌, arith, All,
}
use mb_printer_cli.Common.Text.{Text, codes}
use mb_printer_cli.Common.Map.{lookup, Ordered, Entries}
use mb_printer_cli.Common.Result.{ok}
use mb_printer_cli.Job.{new}
use mb_printer_cli.Cloud.Request.{CloudPrintRequest, Wire}
use mb_printer_cli.Cloud.Store.{
  CloudJob, CloudJobStore, new_job, existing_job, delivered, receive, reconcile_interrupted,
  non_terminal,
}
use mb_printer_cli.Cloud.Store.Redelivery.{IsSound, receive_redelivered, receive_invariant}
use mb_printer_cli.Cloud.Store.Restart.{IsReconciled, reconcile_interrupted_lem}

abbrev pub request : CloudPrintRequest
request = record {
  document = some (codes "{}");
  documents = [];
  model = codes "m110";
  dpi = none;
  rotation = 90;
  fit = true;
  density = 4;
  copies = 1;
  payload_limit = 512;
  continuous = none;
}

abbrev first_code : Text → Option ℕ
first_code [] = none
first_code (n ∷ t) = some n

-- The first code of a text as its identifier, and a digest that is its input.
abbrev pub wire : Wire
wire = record {
  parse_uuid = first_code;
  sha256_hex = λ b. b;
  decode_request = λ b. some request;
  encode_request = λ r. some (codes "{}");
}

abbrev first_delivery : CloudJobStore
first_delivery = (receive wire 5 (1 ∷ []) (2 ∷ []) (9 ∷ []) (9 ∷ []) 100 []).1

abbrev first_job : CloudJob
first_job = record {
  id = 1;
  printer_id = 2;
  request_sha256 = 9 ∷ [];
  request = request;
  local_job = record (new 1 5) { request_hash = some (9 ∷ []); resumable = some (codes "{}") };
}

first_received :
    receive wire 5 (1 ∷ []) (2 ∷ []) (9 ∷ []) (9 ∷ []) 100 []
    ≡ (ok (new_job first_job), first_delivery)
unfolding receive mb_printer_cli.Cloud.Store.check_delivery mb_printer_cli.Common.Text.text_eq
    lookup mb_printer_cli.Cloud.Store.create
first_received = refl

receive_redelivered_example :
    receive wire 60 (1 ∷ []) (2 ∷ []) (9 ∷ []) (9 ∷ []) 100 first_delivery
    ≡ (ok (existing_job first_job), first_delivery)
receive_redelivered_example =
    receive_redelivered wire 5 (1 ∷ []) (2 ∷ []) (9 ∷ []) (9 ∷ []) 100 [] 60 first_delivery
      (new_job first_job) first_received

first_held : lookup 1 first_delivery ≡ some first_job
unfolding receive lookup mb_printer_cli.Cloud.Store.check_delivery
    mb_printer_cli.Common.Text.text_eq mb_printer_cli.Common.Map.insert_ordered
    mb_printer_cli.Cloud.Store.create
first_held = refl

receive_invariant_example : Ordered first_delivery × Entries IsSound first_delivery
receive_invariant_example =
    receive_invariant wire 5 (1 ∷ []) (2 ∷ []) (9 ∷ []) (9 ∷ []) 100 [] (tt, tt)

reconcile_interrupted_lem_example :
    (current : CloudJob) × (lookup 1 (reconcile_interrupted first_delivery) ≡ some current)
    × IsReconciled first_job current
reconcile_interrupted_lem_example = reconcile_interrupted_lem first_delivery 1 first_job first_held
