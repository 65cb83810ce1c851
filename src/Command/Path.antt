-- ===== src/Command/Path.antt =====
-- The path of the request that reports a command's results, against its array of 256 bytes.
use thing_if_thing_sdk.Prelude.{
  if◌then◌else◌, ltb, ◌==◌, Bool-cases, inl, inr, Bytes, length, drop, ℕ, ◌+◌, ◌-◌, ◌<◌, ◌++◌,
  Option, none, some, ◌≡◌, ◌∙◌, arith, length-append, lt→leb_false, le→leb,
}
use thing_if_thing_sdk.Flow.{done, fault, bind_done, pure, ◌>>=◌}
use thing_if_thing_sdk.Kii.{Sdk, Field}
use thing_if_thing_sdk.Context.{Context, size_mod, to_size, sprintf_into}
use thing_if_thing_sdk.ResourcePath.{thing_if_app_path, target_part, command_part, results_part}
use thing_if_thing_sdk.Command.{results_path}
use thing_if_thing_sdk.Command.Memory.{distance, at_most, text_within}

module _ {I W : Type 0} (sdk : Sdk I W) (c : Context I W) (command_id : Field) (id : Bytes)
    (read : at_most (distance command_id.start command_id.end) (drop command_id.start c.message)
      ≡ some id)
    (whole : distance command_id.start command_id.end ≡ length id) where
  abbrev pub path_of_results : Bytes
  path_of_results =
      thing_if_app_path
      ++ (c.kii.app_id
          ++ (target_part ++ (c.kii.author.author_id ++ (command_part ++ (id ++ results_part)))))

  abbrev computed : ℕ
  computed = to_size (
      length thing_if_app_path
      + length c.kii.app_id
      + length target_part
      + length c.kii.author.author_id
      + length command_part
      + (distance command_id.start command_id.end + size_mod - 1)
      + length results_part)

  length-path_of_results :
      length path_of_results
      ≡ length thing_if_app_path
        + length c.kii.app_id
        + length target_part
        + length c.kii.author.author_id
        + length command_part
        + length id
        + length results_part
  length-path_of_results = omega (
    arith,
    length-append c.kii.app_id
        (target_part ++ (c.kii.author.author_id ++ (command_part ++ (id ++ results_part)))),
    length-append c.kii.author.author_id (command_part ++ (id ++ results_part)),
    length-append id results_part,
  )

  computed_lem : length path_of_results < size_mod → computed + 1 ≡ length path_of_results
  computed_lem h = rw whole (omega (arith, length-path_of_results))

  past_guard :
      computed < 256
      → results_path sdk command_id c
        ≡ ◌>>=◌ {B = Option Bytes} (sprintf_into 256 path_of_results) (λ p. pure (some p)) c
  unfolding results_path
  past_guard h = rw (lt→leb_false 256 computed h) (
      bind_done (text_within command_id.start (distance command_id.start command_id.end)) _
        (rw read))

  module _ (in_range : length path_of_results < size_mod) where
    short_path :
        length path_of_results < 256 → results_path sdk command_id c ≡ done (some path_of_results) c
    short_path p =
        past_guard (omega (arith, computed_lem in_range))
        ∙ bind_done (sprintf_into 256 path_of_results) _
            (rw (lt→leb_false 256 (length path_of_results) p))

    full_path : length path_of_results ≡ 256 → results_path sdk command_id c ≡ fault
    full_path p =
        past_guard (omega (arith, computed_lem in_range))
        ∙ (rw (le→leb 256 (length path_of_results) (omega arith)))

    long_path : 256 < length path_of_results → results_path sdk command_id c ≡ done none c
    unfolding results_path
    long_path p = rw (le→leb 256 computed (omega (arith, computed_lem in_range)))

  -- Where the path of the results has more than 256 bytes the command is dropped, and where it has
  -- less the path is built. A path of exactly 256 bytes passes the guard, which counts one byte too
  -- few, and its NUL is written behind the array.
  pub results_path-bounds :
      length path_of_results < size_mod
      → results_path sdk command_id c ≡ (
          if ltb 256 (length path_of_results)
          then done none c
          else (if length path_of_results == 256 then fault else done (some path_of_results) c))
  results_path-bounds h = elim (Bool-cases (ltb 256 (length path_of_results))) [
    | inl long ↦ rw long (long_path h (ground arith))
    | inr not_long ↦ rw not_long (elim (Bool-cases (length path_of_results == 256)) [
      | inl full ↦ rw full (full_path h (ground arith))
      | inr other ↦ rw other (short_path h (ground arith))
    ])
  ]
