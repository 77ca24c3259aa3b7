-- ===== src/Runtime.antt =====
-- The runtime's shared data (crates/kernox-runtime/src/error.rs, observation.rs and app.rs):
-- lifecycle phases, observations, plugin errors and failure records. Text is its UTF-8 bytes, and
-- an observation carries no duration.
pub mod Scope
pub mod Host
pub mod WholeRun
pub mod Provisions
pub mod Rollback
pub mod Lifecycle
pub mod Access
use kernox.Prelude.{
  ℕ, Bool, true, false, not, ◌&&◌, ◌||◌, List, [], ◌∷◌, Option, none, some, leb, ◌==◌, length,
  if◌then◌else◌, is_empty, head?, Result, ok, err,
}
use kernox.Id.{Bytes, PluginId, is_ascii_lowercase}
use kernox.Runtime.Scope.{ScopeId}

pub data LifecyclePhase : Type 0 where
  initialize start quiesce stop dispose : LifecyclePhase

pub record PluginError : Type 0 where
  pub tag : Bytes
  pub message : Bytes

pub record FailureRecord : Type 0 where
  pub phase : LifecyclePhase
  pub plugin : PluginId
  pub error_tag : Bytes
  pub message : Bytes

pub record LifecycleFailure : Type 0 where
  pub primary : FailureRecord
  pub cleanup_failures : List FailureRecord

pub record ShutdownReport : Type 0 where
  pub failures : List FailureRecord

pub data LifecycleOutcome : Type 0 where
  succeeded : LifecycleOutcome
  failed : (error_tag : Bytes) → LifecycleOutcome

pub record LifecycleObservation : Type 0 where
  pub plugin : PluginId
  pub scope : ScopeId
  pub phase : LifecyclePhase
  pub outcome : LifecycleOutcome

-- "plugin.hook-panicked"
abbrev hook_panicked_tag : Bytes
hook_panicked_tag =
    b'p' ∷ b'l' ∷ b'u' ∷ b'g' ∷ b'i' ∷ b'n' ∷ b'.' ∷ b'h' ∷ b'o' ∷ b'o' ∷ b'k' ∷ b'-' ∷ b'p' ∷ b'a'
    ∷ b'n' ∷ b'i' ∷ b'c' ∷ b'k' ∷ b'e' ∷ b'd' ∷ []

-- "plugin lifecycle hook panicked"
abbrev hook_panicked_message : Bytes
hook_panicked_message =
    b'p' ∷ b'l' ∷ b'u' ∷ b'g' ∷ b'i' ∷ b'n' ∷ b' ' ∷ b'l' ∷ b'i' ∷ b'f' ∷ b'e' ∷ b'c' ∷ b'y' ∷ b'c'
    ∷ b'l' ∷ b'e' ∷ b' ' ∷ b'h' ∷ b'o' ∷ b'o' ∷ b'k' ∷ b' ' ∷ b'p' ∷ b'a' ∷ b'n' ∷ b'i' ∷ b'c'
    ∷ b'k' ∷ b'e' ∷ b'd' ∷ []

-- "plugin.invalid-error-tag"
abbrev invalid_error_tag : Bytes
invalid_error_tag =
    b'p' ∷ b'l' ∷ b'u' ∷ b'g' ∷ b'i' ∷ b'n' ∷ b'.' ∷ b'i' ∷ b'n' ∷ b'v' ∷ b'a' ∷ b'l' ∷ b'i' ∷ b'd'
    ∷ b'-' ∷ b'e' ∷ b'r' ∷ b'r' ∷ b'o' ∷ b'r' ∷ b'-' ∷ b't' ∷ b'a' ∷ b'g' ∷ []

abbrev pub hook_panicked : PluginError
hook_panicked = record { tag = hook_panicked_tag; message = hook_panicked_message }

-- How a hook ends: it returns, or it unwinds.
pub data Hook (A : Type 0) : Type 0 where
  returned : A → Hook A
  returned_error : PluginError → Hook A
  panicked : Hook A

abbrev pub run_plugin_hook : {A : Type 0} → Hook A → Result PluginError A
run_plugin_hook (returned a) = ok a
run_plugin_hook (returned_error e) = err e
run_plugin_hook panicked = err hook_panicked

abbrev is_tag_byte : ℕ → Bool
is_tag_byte byte = is_ascii_lowercase byte || (byte == b'.' || byte == b'-')

abbrev all_tag_bytes : Bytes → Bool
all_tag_bytes [] = true
all_tag_bytes (byte ∷ bytes) = is_tag_byte byte && all_tag_bytes bytes

-- `bytes.first().is_some_and(u8::is_ascii_lowercase)`
abbrev starts_lowercase : Bytes → Bool
starts_lowercase [] = false
starts_lowercase (byte ∷ bytes) = is_ascii_lowercase byte

abbrev ends_lowercase : Bytes → Bool
ends_lowercase [] = false
ends_lowercase (byte ∷ []) = is_ascii_lowercase byte
ends_lowercase (byte ∷ next ∷ bytes) = ends_lowercase (next ∷ bytes)

abbrev is_valid_tag : Bytes → Bool
is_valid_tag tag =
    not (is_empty tag)
    && (leb (length tag) 127 && (all_tag_bytes tag && (starts_lowercase tag && ends_lowercase tag)))

pub safe_tag : Bytes → Bytes
safe_tag tag = if is_valid_tag tag then tag else invalid_error_tag

pub plugin_failure : PluginId → LifecyclePhase → PluginError → FailureRecord
plugin_failure plugin phase error = record {
  phase = phase;
  plugin = plugin;
  error_tag = safe_tag error.tag;
  message = error.message;
}
