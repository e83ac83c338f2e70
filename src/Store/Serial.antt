-- ===== src/Store/Serial.antt =====
-- snooze_core/models.py: a job specification as the dictionary in spec.json, and back.
use codex_waiting_plgin.Prelude.{some, Option, ℤ, none, ℕ, refl, String, ◌≡◌, pos}
use codex_waiting_plgin.Protocol.Json.{get_member, Json, Members, member, number, text, end}
use codex_waiting_plgin.Store.Records.{JobSpec}

-- `JobSpec.as_dict`.
abbrev pub as_dict : JobSpec → Members
as_dict s = member "schema_version" (number (pos s.schema_version)) (
    member "job_id" (text s.job_id) (
      member "command" (text s.command)
        (member "cwd" (text s.cwd) (member "shell" (text s.shell) end))))

-- `JobSpec(...)` of values that are all there.
abbrev pub assemble :
    Option ℕ → Option String → Option String → Option String → Option String → Option JobSpec
assemble (some v) (some j) (some c) (some d) (some s) =
    some (record { schema_version = v; job_id = j; command = c; cwd = d; shell = s })
assemble _ _ _ _ _ = none

-- Python's `int` and `str`; `int` raises where it is `none`.
module _ (int_of : Json → Option ℤ) (str_of : Json → String) where
  abbrev str_field : String → Members → Option String
  str_field k m = elim (get_member k m) [ some v ↦ some (str_of v) | none ↦ none ]

  -- Versions are natural numbers here: a negative one, which is never written, is refused.
  abbrev natural : Option ℤ → Option ℕ
  natural (some (pos n)) = some n
  natural o = none

  abbrev int_field : String → Members → Option ℕ
  int_field k m = elim (get_member k m) [ some v ↦ natural (int_of v) | none ↦ none ]

  -- `deserialize_spec`; `none` is a `KeyError`, or the error of `int`.
  unfoldable pub deserialize_spec : Members → Option JobSpec
  deserialize_spec m =
      assemble (int_field "schema_version" m) (str_field "job_id" m) (str_field "command" m)
        (str_field "cwd" m) (str_field "shell" m)

  -- A specification that was written is read back as it was, where `int` and `str` leave integers and
  -- texts as they are.
  pub deserialize_spec-as_dict :
      ((n : ℤ) → int_of (number n) ≡ some n)
      → ((s : String) → str_of (text s) ≡ s)
      → (spec : JobSpec) → deserialize_spec (as_dict spec) ≡ some spec
  unfolding deserialize_spec
  deserialize_spec-as_dict ints strs spec =
      rw
        (
          ints (pos spec.schema_version),
          strs spec.job_id,
          strs spec.command,
          strs spec.cwd,
          strs spec.shell,
        )
        refl
