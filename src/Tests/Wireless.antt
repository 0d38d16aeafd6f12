-- ===== src/Tests/Wireless.antt =====
-- A concrete change of wireless settings over the local API (src/api.rs).
use mb_printer_cli.Common.{
  ℕ, ◌≡◌, arith, refl, Bool, true, false, Option, none, some, List, [], ◌∷◌,
}
use mb_printer_cli.Common.Text.{Text, codes}
use mb_printer_cli.Common.Result.{err}
use mb_printer_cli.Auth.Types.{WifiApproval, AuthStore, stored}
use mb_printer_cli.Api.Errors.{conflict}
use mb_printer_cli.Api.Guards.{Headers}
use mb_printer_cli.Api.Wireless.{
  WirelessSettings, UsbConnection, Printer, wireless_settings_fingerprint,
  brother_wireless_configure,
}
use mb_printer_cli.Api.Wireless.Approved.{IsAuthorized, configure-IsAuthorized}
use mb_printer_cli.Api.Wireless.Binding.{fingerprint_input_injective}
use mb_printer_cli.Tests.Grants.{crates, world, shop, held, holding}
use mb_printer_cli.Tests.Access.{signed}

abbrev network : WirelessSettings
network = record {
  ssid = codes "net";
  password = codes "key";
  encryption = 4;
  authentication = 19;
  infrastructure = true;
  wireless_direct = false;
  reboot = true;
}

abbrev connections : Text → Option UsbConnection
connections id = some (record {
  model = codes "ql-1110nwb";
  kind = some (codes "usb");
  device = some (codes "bus-1");
})

abbrev printer : Printer
printer = record { has_command = λ s. true; takes = λ d s. true }

abbrev approval : WifiApproval
approval = record {
  id = 9;
  grant_id = 7;
  origin = shop;
  connection_id = codes "desk";
  settings_fingerprint = wireless_settings_fingerprint crates network;
  created_at = 90;
  expires_at = 300;
  approved_at = some 95;
  consumed_at = none;
}

-- The approval was written by another process: it is in the file only.
abbrev approved_store : AuthStore
approved_store = record holding {
  file = stored (record { grants = held ∷ []; pairing = none; wifi_approval = some approval });
}

sends :
    (brother_wireless_configure crates world printer connections true 120 signed
      (codes "desk")
      9
      network
      approved_store).sent
    ≡ some (codes "bus-1", network)
unfolding brother_wireless_configure wireless_settings_fingerprint
    mb_printer_cli.Api.Wireless.review mb_printer_cli.Api.Guards.authorize_admin
    mb_printer_cli.Auth.Origin.loopback_host mb_printer_cli.Common.Text.text_eq
    mb_printer_cli.Common.Text.trim mb_printer_cli.Common.Text.to_ascii_lowercase
    mb_printer_cli.Common.Text.starts_with mb_printer_cli.Common.Strings.strip_prefix
    mb_printer_cli.Auth.Grants.authenticate_admin mb_printer_cli.Auth.Grants.authenticate_scoped
    mb_printer_cli.Common.Map.values mb_printer_cli.Auth.Grants.accepts
    mb_printer_cli.Auth.Types.digest mb_printer_cli.Api.Wireless.require_brother_wifi_configuration
    mb_printer_cli.Api.Wireless.brother_usb_connection mb_printer_cli.Api.Wireless.supports
    mb_printer_cli.Api.Wireless.validate mb_printer_cli.Api.Guards.bearer
    mb_printer_cli.Api.Guards.origin mb_printer_cli.Api.Guards.validate_host
    mb_printer_cli.Api.Wireless.fingerprint_input mb_printer_cli.Auth.Grants.grant_allows_admin
    mb_printer_cli.Auth.Persistence.load mb_printer_cli.Auth.Persistence.persist
    mb_printer_cli.Auth.Persistence.reload mb_printer_cli.Auth.Types.allows
    mb_printer_cli.Auth.Wifi.consume_wifi_approval mb_printer_cli.Auth.Wifi.unusable
    mb_printer_cli.Common.Map.lookup mb_printer_cli.Common.Sort.collect_from
    mb_printer_cli.Common.Sort.sort_by mb_printer_cli.Common.Map.insert
sends = refl

-- With another network name the approval does not fit.
refused :
    (brother_wireless_configure crates world printer connections true 120 signed
      (codes "desk")
      9
      (record network { ssid = codes "other" })
      approved_store).answer
    ≡ err (conflict "local wireless approval is missing, expired, or already used")
unfolding brother_wireless_configure wireless_settings_fingerprint
    mb_printer_cli.Api.Wireless.review mb_printer_cli.Api.Guards.authorize_admin
    mb_printer_cli.Auth.Origin.loopback_host mb_printer_cli.Common.Text.text_eq
    mb_printer_cli.Common.Text.trim mb_printer_cli.Common.Text.to_ascii_lowercase
    mb_printer_cli.Common.Text.starts_with mb_printer_cli.Common.Strings.strip_prefix
    mb_printer_cli.Auth.Grants.authenticate_admin mb_printer_cli.Auth.Grants.authenticate_scoped
    mb_printer_cli.Common.Map.values mb_printer_cli.Auth.Grants.accepts
    mb_printer_cli.Auth.Types.digest mb_printer_cli.Api.Wireless.require_brother_wifi_configuration
    mb_printer_cli.Api.Wireless.brother_usb_connection mb_printer_cli.Api.Wireless.supports
    mb_printer_cli.Api.Wireless.validate mb_printer_cli.Api.Guards.bearer
    mb_printer_cli.Api.Guards.origin mb_printer_cli.Api.Guards.validate_host
    mb_printer_cli.Api.Wireless.fingerprint_input mb_printer_cli.Auth.Grants.grant_allows_admin
    mb_printer_cli.Auth.Persistence.load mb_printer_cli.Auth.Persistence.persist
    mb_printer_cli.Auth.Persistence.reload mb_printer_cli.Auth.Types.allows
    mb_printer_cli.Auth.Wifi.consume_wifi_approval mb_printer_cli.Auth.Wifi.unusable
    mb_printer_cli.Common.Map.lookup mb_printer_cli.Common.Sort.collect_from
    mb_printer_cli.Common.Sort.sort_by mb_printer_cli.Common.Map.insert
refused = refl

configure-IsAuthorized_example :
    IsAuthorized crates world connections true 120 signed
      (codes "desk")
      9
      network
      approved_store
      (codes "bus-1")
      network
      (brother_wireless_configure crates world printer connections true 120 signed
        (codes "desk")
        9
        network
        approved_store).store
configure-IsAuthorized_example =
    configure-IsAuthorized crates world printer connections true 120 signed (codes "desk") 9 network
      approved_store (codes "bus-1") network sends

-- The same settings, read again.
abbrev network_again : WirelessSettings
network_again = record network { reboot = true }

fingerprint_input_injective_example : network ≡ network_again
fingerprint_input_injective_example =
    fingerprint_input_injective network network_again (omega arith) (omega arith) (omega arith)
      (omega arith) refl
