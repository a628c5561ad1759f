-- ===== src/Standby/Format.antt =====
-- The value that `set_synchronous_standby_names` gives to `synchronous_standby_names`.
use area.Common.{
  suc, ◌+◌, ℤ, pos, negsuc, leb_ℤ, ltb, Bool, false, not, ◌&&◌, ◌||◌, Option, none, some, List, [],
  ◌∷◌, ◌++◌, map, some_of, is_empty, length, Text, codes, eq_text, digits, if◌then◌else◌,
}
use area.Sync.Names.{sorted}
use area.Standby.Parse.{quote_standby_name}

-- What is read of PostgreSQL and of the global configuration.
pub record Writing : Type 0 where
  pub supports_multiple_sync : Bool
  pub supports_quorum_commit : Bool
  pub is_quorum_commit_mode : Bool

-- `','.join(names)`
unfoldable pub join_names : List Text → Text
join_names [] = []
join_names (name ∷ []) = name
join_names (name ∷ other ∷ names) = name ++ (b',' ∷ join_names (other ∷ names))

-- A number in an f-string.
unfoldable pub format_int : ℤ → Text
format_int (pos n) = map (λ d. b'0' + d) (digits 10 n)
format_int (negsuc n) = b'-' ∷ map (λ d. b'0' + d) (digits 10 (suc n))

-- `num and num >= 1`
abbrev is_asked : Option ℤ → Bool
is_asked none = false
is_asked (some num) = leb_ℤ (pos 1) num

unfoldable pub has_asterisk : List Text → Option ℤ → Bool
has_asterisk sync num = some_of (eq_text (codes "*")) sync || (is_asked num && is_empty sync)

-- `sync` after it is quoted.
unfoldable pub quoted_names : List Text → Option ℤ → List Text
unfolding has_asterisk quote_standby_name
quoted_names sync num =
    if has_asterisk sync num then codes "*" ∷ [] else map quote_standby_name (sorted sync)

abbrev format_num : Option ℤ → Text
format_num none = codes "None"
format_num (some num) = format_int num

-- `sync_param` before the prefix; none is None.
abbrev first_name : List Text → Option Text
first_name [] = none
first_name (name ∷ names) = some name

abbrev num_or_len : Option ℤ → List Text → Option ℤ
num_or_len none names = some (pos (length names))
num_or_len (some num) names = some num

abbrev text_of : Option Text → Text
text_of none = codes "None"
text_of (some s) = s

-- `sync_param`, for the names as they are quoted.
unfoldable pub param_of : Writing → List Text → Option ℤ → Option Text
unfolding join_names format_int
param_of w names num =
    let many = w.supports_multiple_sync && ltb 1 (length names) in
    let num' = if many then num_or_len num names else num in
    let listed = if many then some (join_names names) else first_name names in
    if w.supports_multiple_sync
      && ((w.is_quorum_commit_mode && not (is_empty names)) || ltb 1 (length names))
    then some (
        (if w.is_quorum_commit_mode && w.supports_quorum_commit then codes "ANY " else [])
        ++ (format_num num' ++ (codes " (" ++ (text_of listed ++ codes ")"))))
    else listed

unfoldable pub sync_param : Writing → List Text → Option ℤ → Option Text
unfolding param_of quoted_names
sync_param w sync num = param_of w (quoted_names sync num) num
