-- ===== src/Dns/Error.antt =====
-- dns/error.rs: the errors of the DNS tools and their kinds.
use verkkokyyla.Prelude.Text.{Text, codes}

pub data DnsError : Type 0 where
  invalid_endpoint : Text → DnsError
  invalid_input : Text → DnsError
  timeout : DnsError
  servfail_error : DnsError
  refused_error : DnsError
  confirmation_required : DnsError
  load_target_not_allowed : DnsError
  over_cap : DnsError
  no_reference : DnsError
  truncated_transfer : DnsError
  unsupported_transport : Text → DnsError
  transport : Text → DnsError
  resolution : Text → DnsError
  dnssec : Text → DnsError
  io : Text → DnsError
  operation_cancelled : DnsError

-- `DnsError::kind`.
abbrev pub error_kind : DnsError → Text
error_kind (invalid_endpoint message) = codes "invalid-endpoint"
error_kind (invalid_input message) = codes "invalid-input"
error_kind timeout = codes "timeout"
error_kind servfail_error = codes "servfail"
error_kind refused_error = codes "refused"
error_kind confirmation_required = codes "confirmation-required"
error_kind load_target_not_allowed = codes "load-target-not-allowed"
error_kind over_cap = codes "over-cap"
error_kind no_reference = codes "no-reference"
error_kind truncated_transfer = codes "truncated-transfer"
error_kind (unsupported_transport message) = codes "unsupported-transport"
error_kind (transport message) = codes "transport"
error_kind (resolution message) = codes "resolution"
error_kind (dnssec message) = codes "dnssec"
error_kind (io message) = codes "io"
error_kind operation_cancelled = codes "cancelled"
