-- ===== src/Remove/Tests.antt =====
-- An index with the folder `d`, the file `d/a` in it, and a file `b`. LIKE matches here only the path
-- that a pattern is made of, and what lies in a folder.
use drone_db.Base.{
  ◌≡◌, refl, Bool, true, false, ◌||◌, ◌&&◌, none, [], ◌∷◌, map, Text, same, same_refl, bytes, any,
  keep, arith, ok,
}
use drone_db.Index.Table.{generic, directory, Entry, empty_entry}
use drone_db.Transaction.{
  Connection, Fault, construct, destroy, commit, exec_begin, exec_commit, in_transaction,
}
use drone_db.Meta.{delete_where}
use drone_db.Move.{Stored}
use drone_db.Remove.{
  replace_from, string_replace, sanitize_query_param, pattern_of, match_pattern, delete_from_index,
  delete_call, delete_matches, get_matching_entries, remove_from_index, remove_builds,
}
use drone_db.Remove.Pattern.{query_token, like_tokens, like_tokens-sanitize}
use drone_db.Remove.{Disk}
use drone_db.Remove.Paths.{IsGone, remove_from_index-IsGone}

like_tokens-sanitize_example :
    like_tokens false (sanitize_query_param (bytes "a/*%")) ≡ map query_token (bytes "a/*%")
like_tokens-sanitize_example = like_tokens-sanitize (bytes "a/*%")

sanitized_text : sanitize_query_param (bytes "a/*%") ≡ bytes "a//%/%"
unfolding sanitize_query_param string_replace replace_from
sanitized_text = refl

-- a path by its own pattern, and the file `d/a` by the pattern of what lies in `d`
abbrev like_here : Text → Text → Bool
like_here pattern p =
    same pattern (pattern_of p false) || (same pattern (bytes "d//%") && same p (bytes "d/a"))

like_own : (q : Text) → like_here (pattern_of q false) q ≡ true
like_own q = ground (arith, same_refl (pattern_of q false))

abbrev file_of : Text → Entry
file_of p = record empty_entry { path = p; hash = p; type = generic }

abbrev tables : Stored
tables = record {
  entries =
      record empty_entry { path = bytes "d"; type = directory }
      ∷ file_of (bytes "d/a")
      ∷ file_of (bytes "b")
      ∷ [];
  metas =
      record { id = bytes "1"; path = bytes "d/a"; key = bytes "note"; meta_data = []; mtime = 1 }
      ∷ [];
}

abbrev at_rest : Connection Stored
at_rest = record { committed = tables; working = none }

abbrev no_faults : Text → Bool → Fault × Fault
no_faults q in_folder = (none, none)

abbrev never : Text → Bool
never h = false

abbrev given : Text → Text
given p = p

abbrev before : Disk
before = (at_rest, λ h. true)

remove_folder :
    (remove_from_index like_here never no_faults given (bytes "d" ∷ []) before).0 ≡ ok tt
unfolding remove_from_index delete_matches delete_call delete_from_index get_matching_entries
    match_pattern pattern_of sanitize_query_param string_replace replace_from remove_builds
    in_transaction construct exec_begin commit exec_commit destroy delete_where keep same
remove_folder = refl

remove_from_index-IsGone_example :
    IsGone (bytes "d") (remove_from_index like_here never no_faults given (bytes "d" ∷ []) before).1
unfolding match_pattern pattern_of sanitize_query_param string_replace replace_from same any
remove_from_index-IsGone_example =
    remove_from_index-IsGone like_here never no_faults like_own given (bytes "d" ∷ []) before
      (bytes "d") refl refl remove_folder
