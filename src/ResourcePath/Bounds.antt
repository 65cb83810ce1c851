-- ===== src/ResourcePath/Bounds.antt =====
-- The guards of the resource paths against the arrays that they protect.
use thing_if_thing_sdk.Prelude.{
  ◌∙◌, Bool-cases, inl, inr, leb, refl, Bool, true, false, Bytes, length, ℕ, ◌+◌, ◌<◌, ◌++◌, Option,
  none, some, ◌≡◌, refl, arith, lt→leb_false, if◌then◌else◌, length-append,
}
use native.Mathlib.Nat.{mod-eq_of_lt}
use thing_if_thing_sdk.Flow.{Outcome, done, aborted, Run, ◌>>◌, pure, bind_done}
use thing_if_thing_sdk.Context.{size_mod, to_size, assert_fails, sprintf_into}
use thing_if_thing_sdk.ResourcePath.{
  set_path, prv_set_onboard_resource_path, prv_set_state_resource_path,
  prv_set_firmware_version_resource_path, prv_set_thing_type_resource_path, thing_if_app_path,
  onboarding_path, target_part, states_part, things_part, firmware_version_part, thing_type_part,
}

-- What a function that builds `path` in an array of `size` bytes should do: fail its assertion, or
-- return KII_FALSE where assertions are compiled out, if the text and its NUL do not fit; else
-- return the path. It never writes outside the array.
abbrev pub Builds : {S : Type 0} → Bool → ℕ → Bytes → Run S (Option Bytes) → Type 0
Builds {S} noassert size path m =
    (s : S)
    → m s ≡ (
        if leb size (length path)
        then (if noassert then done none s else aborted)
        else done (some path) s)

pub Builds-fits :
    {S : Type 0} {s : S} {r : Outcome S (Option Bytes)} (noassert : Bool) (size : ℕ) (path : Bytes)
    → r ≡ (
        if leb size (length path)
        then (if noassert then done none s else aborted)
        else done (some path) s)
    → length path < size
    → r ≡ done (some path) s
Builds-fits noassert size path built h = built ∙ (rw (lt→leb_false size (length path) h) refl)

refused :
    {S : Type 0} (noassert : Bool) (s : S)
    → ◌≡◌ {A = Outcome S (Option Bytes)}
        ((assert_fails noassert >> pure none) s)
        (if noassert then done none s else aborted)
refused true s = refl
refused false s = refl

set_path-Builds :
    {S : Type 0} (noassert : Bool) (n size : ℕ) (path : Bytes)
    → n ≡ length path
    → Builds {S = S} noassert size path (set_path noassert n size path)
set_path-Builds noassert n size path e s = elim (Bool-cases (leb size (length path))) [
  | inl long ↦ rw (e, long) (refused noassert s)
  | inr short ↦ rw (e, short) (bind_done (sprintf_into size path) _ (rw short refl))
]

-- The length that the code adds up is the path's, where the path fits the address space.
to_size-eq : {n k : ℕ} → n ≡ k → k < size_mod → to_size n ≡ k
to_size-eq e h = rw e (mod-eq_of_lt h)

three_parts : (a b c : Bytes) → length a + length b + length c ≡ length (a ++ (b ++ c))
three_parts a b c = omega (arith, length-append a (b ++ c), length-append b c)

five_parts :
    (a b c d e : Bytes)
    → length a + length b + length c + length d + length e ≡ length (a ++ (b ++ (c ++ (d ++ e))))
five_parts a b c d e = omega (
  arith,
  length-append a (b ++ (c ++ (d ++ e))),
  length-append b (c ++ (d ++ e)),
  length-append c (d ++ e),
  length-append d e,
)

module _ {S : Type 0} (noassert : Bool) (app_id : Bytes) (size : ℕ) where
  -- prv_set_onboard_resource_path builds thing-if/apps/<app id>/onboardings, and never writes
  -- outside the array that it is given.
  pub prv_set_onboard_resource_path-Builds :
      length (thing_if_app_path ++ (app_id ++ onboarding_path)) < size_mod
      → Builds {S = S} noassert size
          (thing_if_app_path ++ (app_id ++ onboarding_path))
          (prv_set_onboard_resource_path noassert app_id size)
  unfolding prv_set_onboard_resource_path
  prv_set_onboard_resource_path-Builds h =
      set_path-Builds noassert _ size (thing_if_app_path ++ (app_id ++ onboarding_path))
        (to_size-eq (three_parts thing_if_app_path app_id onboarding_path) h)

  -- prv_set_state_resource_path builds the path of its name, and never writes outside the array
  -- that it is given.
  pub prv_set_state_resource_path-Builds :
      (author_id : Bytes)
      → let path = thing_if_app_path ++ (app_id ++ (target_part ++ (author_id ++ states_part))) in
        length path < size_mod
        → Builds {S = S} noassert size path
            (prv_set_state_resource_path noassert app_id author_id size)
  unfolding prv_set_state_resource_path
  prv_set_state_resource_path-Builds author_id h =
      set_path-Builds noassert _ size
        (thing_if_app_path ++ (app_id ++ (target_part ++ (author_id ++ states_part))))
        (to_size-eq (five_parts thing_if_app_path app_id target_part author_id states_part) h)

  -- prv_set_firmware_version_resource_path builds the path of its name, and never writes outside the array
  -- that it is given.
  pub prv_set_firmware_version_resource_path-Builds :
      (author_id : Bytes)
      → let path =
          thing_if_app_path ++ (app_id ++ (things_part ++ (author_id ++ firmware_version_part))) in
        length path < size_mod
        → Builds {S = S} noassert size path
            (prv_set_firmware_version_resource_path noassert app_id author_id size)
  unfolding prv_set_firmware_version_resource_path
  prv_set_firmware_version_resource_path-Builds author_id h =
      set_path-Builds noassert _ size
        (thing_if_app_path ++ (app_id ++ (things_part ++ (author_id ++ firmware_version_part))))
        (to_size-eq
          (five_parts thing_if_app_path app_id things_part author_id firmware_version_part) h)

  -- prv_set_thing_type_resource_path builds the path of its name, and never writes outside the array
  -- that it is given.
  pub prv_set_thing_type_resource_path-Builds :
      (author_id : Bytes)
      → let path =
          thing_if_app_path ++ (app_id ++ (things_part ++ (author_id ++ thing_type_part))) in
        length path < size_mod
        → Builds {S = S} noassert size path
            (prv_set_thing_type_resource_path noassert app_id author_id size)
  unfolding prv_set_thing_type_resource_path
  prv_set_thing_type_resource_path-Builds author_id h =
      set_path-Builds noassert _ size
        (thing_if_app_path ++ (app_id ++ (things_part ++ (author_id ++ thing_type_part))))
        (to_size-eq (five_parts thing_if_app_path app_id things_part author_id thing_type_part) h)

module _ {S : Type 0} (noassert : Bool) (app_id : Bytes) (author_id : Bytes) (size : ℕ) where
  -- Where the paths fit the address space, the four functions build thing-if/apps/<app id> followed by
  -- the onboardings, the states, the firmware version or the type of the thing, and never write
  -- outside the array that they are given: a path that does not fit it fails the assertion or is refused.
  pub resource_paths-Builds :
      let onboard_path = thing_if_app_path ++ (app_id ++ onboarding_path) in
      let state_path =
        thing_if_app_path ++ (app_id ++ (target_part ++ (author_id ++ states_part))) in
      let version_path =
        thing_if_app_path ++ (app_id ++ (things_part ++ (author_id ++ firmware_version_part))) in
      let type_path =
        thing_if_app_path ++ (app_id ++ (things_part ++ (author_id ++ thing_type_part))) in
      length onboard_path < size_mod
      → length state_path < size_mod
      → length version_path < size_mod
      → length type_path < size_mod
      → Builds {S = S} noassert size onboard_path
          (prv_set_onboard_resource_path noassert app_id size)
        × Builds {S = S} noassert size state_path
            (prv_set_state_resource_path noassert app_id author_id size)
        × Builds {S = S} noassert size version_path
            (prv_set_firmware_version_resource_path noassert app_id author_id size)
        × Builds {S = S} noassert size type_path
            (prv_set_thing_type_resource_path noassert app_id author_id size)
  resource_paths-Builds onboard state version type = (
    prv_set_onboard_resource_path-Builds noassert app_id size onboard,
    prv_set_state_resource_path-Builds noassert app_id size author_id state,
    prv_set_firmware_version_resource_path-Builds noassert app_id size author_id version,
    prv_set_thing_type_resource_path-Builds noassert app_id size author_id type,
  )
