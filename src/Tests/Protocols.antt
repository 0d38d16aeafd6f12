-- ===== src/Tests/Protocols.antt =====
-- Concrete messages of the device protocols and options of continuous media (src/device.rs,
-- src/api/jobs.rs).

use mb_printer_cli.Common.{
  ℕ, ◌/◌, ◌≡◌, refl, true, false, Option, none, some, List, [], ◌∷◌, if◌then◌else◌, ltb, is_some,
}
use mb_printer_cli.Common.Text.{Text, codes}
use mb_printer_cli.Common.Result.{ok}
use mb_printer_cli.Device.Ipp.{parse_ipp}
use mb_printer_cli.Device.Ipp.Total.{parse_ipp-total}
use mb_printer_cli.Device.Ipp.RoundTrip.{Item, attribute}
use mb_printer_cli.Cloud.Request.{after_each, after_job, no_cut, ContinuousPrintOptions}
use mb_printer_cli.Api.Jobs.Continuous.{Floats, ContinuousMedia, cut_plan}
use mb_printer_cli.Api.Jobs.Continuous.Cuts.{admissible, cut_plan_exact}
use mb_printer_cli.Api.Jobs.Submission.{
  JobRequest, Connection, Document, Library, Prepared, capture, prepare,
}
use mb_printer_cli.Api.Jobs.Submission.Printable.{IsPrintable, prepare-IsPrintable}

-- A response whose length points past its end.
abbrev cut_off : List ℕ
cut_off = 1 ∷ 1 ∷ 0 ∷ 0 ∷ 0 ∷ 0 ∷ 0 ∷ 1 ∷ 4 ∷ 0x44 ∷ 0 ∷ 200 ∷ 65 ∷ []

parse_ipp-total_example : is_some (parse_ipp (λ t. t) cut_off) ≡ true
parse_ipp-total_example = parse_ipp-total (λ t. t) cut_off

abbrev copies_item : Item
copies_item = attribute 0x21 (codes "copies") (0 ∷ 0 ∷ 0 ∷ 7 ∷ [])

-- Lengths as whole numbers.
abbrev whole : Floats
whole = record { lt = ltb; is_finite = λ x. true; thousandth = λ x. x / 1000 }

abbrev roll : ContinuousMedia
roll = record {
  supported = true;
  minimum_length_mm = 10;
  maximum_length_mm = 1000;
  cut_modes = after_each ∷ after_job ∷ [];
  supports_chained_raster = true;
  minimum_extra_feed_mm = 0;
  maximum_extra_feed_mm = 50;
}

abbrev chained : ContinuousPrintOptions
chained = record {
  cut_mode = after_each;
  extra_feed_before_mm = 0;
  extra_feed_after_mm = 5;
  chain_copies = true;
}

cut_plan_exact_example :
    mb_printer_cli.Api.Jobs.Continuous.Cuts.answer_of
      (cut_plan whole true 50000 (some roll) (some chained) 3 2)
    ≡ (if admissible whole roll chained 50000 3 2 then some (true, 3) else none)
cut_plan_exact_example = cut_plan_exact whole roll after_each 0 5 true 50000 3 2

every_three_labels : cut_plan whole true 50000 (some roll) (some chained) 3 2 ≡ ok (true, 3)
unfolding cut_plan mb_printer_cli.Api.Jobs.Continuous.total_labels
    mb_printer_cli.Api.Jobs.Continuous.continuous_protocol_options
    mb_printer_cli.Api.Jobs.Continuous.job_options mb_printer_cli.Api.Jobs.Continuous.check_feeds
    mb_printer_cli.Api.Jobs.Continuous.cut_every mb_printer_cli.Api.Jobs.Continuous.counts_labels
    mb_printer_cli.Api.Jobs.Continuous.cut_counter_labels
every_three_labels = refl

abbrev library : Library
library = record {
  canonical_document =
      λ value. ok (record { continuous = true; width = 62000; height = 50000; dpi = 300 });
  validate = λ d. true;
  by_id = λ model. some (some roll);
  max_request_documents = 16;
  decode_transport = λ t. some capture;
  floats = whole;
  exceeds_by_half = λ x y. ltb y x;
}

abbrev two_labels : JobRequest
two_labels = record {
  document = none;
  documents = codes "a" ∷ codes "b" ∷ [];
  model = some (codes "ql-820");
  connection_id = none;
  dpi = none;
  rotation = 90;
  fit = false;
  density = 6;
  copies = 3;
  payload_limit = 512;
  transport = some capture;
  continuous = some chained;
}

abbrev no_connections : Text → Option Connection
no_connections id = none

abbrev label : Document
label = record { continuous = true; width = 62000; height = 50000; dpi = 300 }

abbrev two_prepared : Prepared
two_prepared = record {
  target = record { model = codes "ql-820"; transport = capture; loaded_media = none };
  documents = label ∷ label ∷ [];
  cut = true;
  cut_every = 3;
}

two_accepted : prepare library no_connections two_labels ≡ ok two_prepared
unfolding prepare mb_printer_cli.Api.Jobs.Submission.invalid_options
    mb_printer_cli.Api.Jobs.Submission.canonical_documents cut_plan
    mb_printer_cli.Api.Jobs.Continuous.total_labels
    mb_printer_cli.Api.Jobs.Continuous.continuous_protocol_options
    mb_printer_cli.Api.Jobs.Continuous.job_options mb_printer_cli.Api.Jobs.Continuous.check_feeds
    mb_printer_cli.Api.Jobs.Continuous.cut_every mb_printer_cli.Api.Jobs.Continuous.counts_labels
    mb_printer_cli.Api.Jobs.Continuous.cut_counter_labels
    mb_printer_cli.Cloud.Request.valid_rotation
two_accepted = refl

prepare-IsPrintable_example : IsPrintable library two_labels two_prepared
prepare-IsPrintable_example =
    prepare-IsPrintable library no_connections two_labels two_prepared two_accepted
