-- ===== src/GenericError.antt =====
-- pkg/generic_error/error_manager.go: descriptions and protocol codes of errors, by the error's code.
-- A map is an association list; the maps of an extender are not shared with their callers here.
mod Tests
use go_backend_helpers.Prelude.{
  ℕ, String, ◌≡◌, refl, ap, Bool, true, false, Option, none, some, List, [], ◌∷◌, ◌==◌, ◌||◌, arith,
  eq_iff, if◌then◌else◌, Dict, lookup, insert, lookup-insert, is_some,
}
use go_backend_helpers.Table.{has, IsUnique}

pub record ErrorManager : Type 0 where
  pub descriptions : Dict String
  pub protocol_codes : Dict ℕ
  pub default_protocol_code : ℕ

-- `utils.AppendMap`
unfoldable pub append_map : {V : Type 0} → Dict V → Dict V → Dict V
append_map to [] = to
append_map to ((code, value) ∷ rest) = append_map (insert code value to) rest

-- `AddErrorDescriptions`, `AddErrorProtocolCodes`
unfoldable pub add_error_descriptions : Dict String → ErrorManager → ErrorManager
add_error_descriptions m e = record e { descriptions = append_map e.descriptions m }

unfoldable pub add_error_protocol_codes : Dict ℕ → ErrorManager → ErrorManager
add_error_protocol_codes m e = record e { protocol_codes = append_map e.protocol_codes m }

abbrev pub or_default : {V : Type 0} → Option V → V → V
or_default none v = v
or_default (some v) w = v

abbrev translated : Option (String → String) → String → String
translated none text = text
translated (some tr) text = tr text

-- `ErrorDescription` with the translation, if one is given, and `ErrorProtocolCode`
unfoldable pub error_description : Option (String → String) → String → ErrorManager → String
error_description tr code e = translated tr (or_default (lookup code e.descriptions) code)

unfoldable pub error_protocol_code : String → ErrorManager → ℕ
error_protocol_code code e = or_default (lookup code e.protocol_codes) e.default_protocol_code

-- ErrorsExtenderBase: `none` is the nil map of a fresh extender.
pub record ErrorsExtender : Type 0 where
  pub error_descriptions : Option (Dict String)
  pub error_protocol_codes : Option (Dict ℕ)

-- `Init`: without codes, those of the extender stay.
unfoldable pub init : Dict String → Option (Dict ℕ) → ErrorsExtender → ErrorsExtender
init descriptions none e = record e { error_descriptions = some descriptions }
init descriptions (some codes) e = record e {
  error_descriptions = some descriptions;
  error_protocol_codes = some codes;
}

-- Appending to a map that may be nil: `none` is the panic of a write to a nil map.
unfoldable pub append_to : {V : Type 0} → Option (Dict V) → Dict V → Option (Option (Dict V))
append_to (some to) m = some (some (append_map to m))
append_to none [] = some none
append_to none (entry ∷ rest) = none

unfoldable pub append_codes : Option (Dict ℕ) → ErrorsExtender → Option ErrorsExtender
append_codes none e = some e
append_codes (some codes) e = elim (append_to e.error_protocol_codes codes) [
  | none ↦ none
  | some extended ↦ some (record e { error_protocol_codes = extended })
]

-- `AddErrors`
unfoldable pub add_errors : Dict String → Option (Dict ℕ) → ErrorsExtender → Option ErrorsExtender
add_errors descriptions codes e = elim e.error_descriptions [
  | none ↦ some (init descriptions codes e)
  | some old ↦
      append_codes codes (record e { error_descriptions = some (append_map old descriptions) })
]

-- `AttachToErrorManager`
unfoldable pub attach_to_error_manager : ErrorsExtender → ErrorManager → ErrorManager
attach_to_error_manager e m =
    add_error_protocol_codes (or_default e.error_protocol_codes [])
      (add_error_descriptions (or_default e.error_descriptions []) m)

abbrev pub KeysOnce : {V : Type 0} → Dict V → Type 0
KeysOnce {V} m = IsUnique (λ (entry : String × V). entry.0) m

module _ {V : Type 0} where
  lookup-none :
      (code : String) (m : Dict V)
      → has (λ (entry : String × V). entry.0) code m ≡ false
      → lookup code m ≡ none
  unfolding has lookup
  lookup-none code [] h = refl
  lookup-none code ((c, v) ∷ m) h = ground (arith, lookup-none code m)

  pub lookup-append_map :
      (code : String) (to m : Dict V)
      → KeysOnce m
      → lookup code (append_map to m)
        ≡ elim (lookup code m) [ none ↦ lookup code to | some v ↦ some v ]
  unfolding lookup append_map
  lookup-append_map code to [] u = refl
  lookup-append_map code to ((c, v) ∷ m) u = ground (
    arith,
    lookup-append_map code (insert c v to) m u.1,
    lookup-insert c code v to,
    lookup-none c m u.0,
    eq_iff c code,
  )

-- After an extender is attached, the manager gives its description and protocol code for each error
-- code that the extender has, and for every other one what it gave before. The maps have each code
-- once, as Go's do.
attach_to_error_manager_lem :
    (e : ErrorsExtender) (m : ErrorManager) (code : String) (descriptions : Dict String)
    (codes : Dict ℕ)
    → e.error_descriptions ≡ some descriptions
    → e.error_protocol_codes ≡ some codes
    → KeysOnce descriptions
    → KeysOnce codes
    → (error_description none code (attach_to_error_manager e m)
        ≡ or_default (lookup code descriptions) (error_description none code m))
      × (error_protocol_code code (attach_to_error_manager e m)
          ≡ or_default (lookup code codes) (error_protocol_code code m))
unfolding attach_to_error_manager add_error_descriptions add_error_protocol_codes error_description
    error_protocol_code
attach_to_error_manager_lem e m code descriptions codes d c u v = (
  ground (arith, lookup-append_map code m.descriptions descriptions u),
  ground (arith, lookup-append_map code m.protocol_codes codes v),
)

-- An extender that was initialised without protocol codes panics when errors with codes are added.
add_errors_panics :
    (descriptions more : Dict String) (code : String) (value : ℕ) (codes : Dict ℕ)
    → add_errors more
        (some ((code, value) ∷ codes))
        (init descriptions none (record { error_descriptions = none; error_protocol_codes = none }))
      ≡ none
unfolding add_errors append_codes append_to init
add_errors_panics descriptions more code value codes = refl
