-- ===== src/JobStore/Job.antt =====
-- A scan job and its result (form/src/kcatta_form/schemas/scan.py). A datetime is the number of
-- microseconds since the epoch that the repository's `_micros` stores of it. Texts are as pydantic leaves them, with no outer white space.
use kcatta.Prelude.{ℕ, Bool, true, false, Option, none, some, Text}

abbrev pub Time : Type 0
Time = ℕ

pub data ScanCapability : Type 0 where
  host trace guard : ScanCapability

pub data ScanMode : Type 0 where
  oneshot resident : ScanMode

unfoldable pub mode_for_capability : ScanCapability → ScanMode
mode_for_capability guard = resident
mode_for_capability _ = oneshot

pub data ScanJobState : Type 0 where
  pending retrying running cancelling succeeded failed cancelled : ScanJobState

pub data DerivedState : Type 0 where
  pending processing complete partial : DerivedState

pub data WindowsDefenderScan : Type 0 where
  no_scan quick full : WindowsDefenderScan

pub record ScanJobOptions : Type 0 where
  pub scan_target : Text
  pub malware : Bool
  pub windows_defender_scan : WindowsDefenderScan
  pub posture : Bool
  pub secrets : Bool
  pub pcap : Bool
  pub iface : Text
  pub duration : ℕ
  pub bpf : Text
  pub intel : Bool
  pub ebpf : Bool
  pub guard_network : Bool
  pub guard_onaccess : Bool

pub record ScanResult : Type 0 where
  pub kind : ScanCapability
  pub report_id : Option Text
  pub batch_id : Option Text
  pub host_id : Option Text
  pub pid : Option Text
  pub detail : Option Text
  pub derived_state : Option DerivedState
  pub derived_records : ℕ
  pub derived_truncated : Bool
  pub derived_reason : Option Text
  pub derived_attempts : ℕ
  pub derived_updated_at : Option Time

pub record ScanJob : Type 0 where
  pub job_id : Text
  pub target_id : Text
  pub address : Text
  pub capability : ScanCapability
  pub mode : Option ScanMode
  pub state : ScanJobState
  pub options : ScanJobOptions
  pub created_at : Time
  pub updated_at : Option Time
  pub available_at : Option Time
  pub started_at : Option Time
  pub finished_at : Option Time
  pub cancel_requested_at : Option Time
  pub attempt : ℕ
  pub max_attempts : ℕ
  pub result : Option ScanResult
  pub error : Option Text

-- Tests on the state: `state IN (…)`.
abbrev pub is_active : ScanJobState → Bool
is_active running = true
is_active cancelling = true
is_active _ = false

abbrev pub is_waiting : ScanJobState → Bool
is_waiting pending = true
is_waiting retrying = true
is_waiting _ = false

abbrev pub is_terminal : ScanJobState → Bool
is_terminal succeeded = true
is_terminal failed = true
is_terminal cancelled = true
is_terminal _ = false

abbrev pub is_running : ScanJobState → Bool
is_running running = true
is_running _ = false

abbrev pub is_cancelling : ScanJobState → Bool
is_cancelling cancelling = true
is_cancelling _ = false

abbrev pub is_succeeded : ScanJobState → Bool
is_succeeded succeeded = true
is_succeeded _ = false

abbrev pub is_guard : ScanCapability → Bool
is_guard guard = true
is_guard _ = false

-- `a or b` on an optional value.
abbrev pub or_else {ℓ} : {A : Type ℓ} → Option A → A → A
or_else none b = b
or_else (some a) b = a

abbrev pub first_some {ℓ} : {A : Type ℓ} → Option A → A → Option A
first_some none b = some b
first_some (some a) b = some a

abbrev waiting_default : ScanJobState → Option Time → Time → Option Time
waiting_default pending t c = first_some t c
waiting_default retrying t c = first_some t c
waiting_default _ t c = t

-- The model validator `_derive_mode`.
unfoldable pub derive_mode : ScanJob → ScanJob
unfolding mode_for_capability
derive_mode job = record job {
  mode = first_some job.mode (mode_for_capability job.capability);
  updated_at = first_some job.updated_at job.created_at;
  available_at = waiting_default job.state job.available_at job.created_at;
}
