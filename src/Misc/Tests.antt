-- ===== src/Misc/Tests.antt =====
-- WAL positions, versions and timeline history on the values of the source's examples.
use area.Common.{pos, negsuc, ◌+ℤ◌, ◌≡◌, refl, true, none, some, [], ◌∷◌, ◌++◌, codes, digits}
use area.Sync.Names.{is_space, strip_left, strip_right}
use area.Misc.Number.{int_of}
use area.Misc.Lsn.{format_lsn, parse_lsn, parse_history}
use area.Misc.Version.{
  Version, postgres_version_to_int, postgres_major_version_to_int, get_major_from_minor_version,
}
use area.Misc.Written.{parse_lsn-format_lsn}

parse_lsn-format_lsn_example : parse_lsn (format_lsn 82400000000 true) ≡ some (pos 82400000000)
parse_lsn-format_lsn_example = parse_lsn-format_lsn 82400000000 true

format_lsn_full : format_lsn 4295000000 true ≡ codes "1/00007FC0"
unfolding format_lsn digits
format_lsn_full = refl

int_of_signed : int_of 10 (codes " -1_0 ") ≡ some (negsuc 9)
unfolding int_of is_space strip_left strip_right
int_of_signed = refl

int_of_text : int_of 10 (codes "1__0") ≡ none
unfolding int_of is_space strip_left strip_right
int_of_text = refl

parse_lsn_no_slash : parse_lsn (codes "1A") ≡ none
unfolding parse_lsn is_space strip_left strip_right
parse_lsn_no_slash = refl

-- A line without a reason and one whose timeline is no number are left out.
parse_history_example :
    parse_history (
      codes "1"
      ++ 9 ∷ codes "0/10"
      ++ 9 ∷ codes "no"
      ++ 10 ∷ codes "2"
      ++ 9 ∷ codes "0/20"
      ++ 10 ∷ [])
    ≡ record { timeline = pos 1; lsn = pos 16; reason = codes "no" } ∷ []
unfolding parse_history is_space strip_left strip_right ◌+ℤ◌
parse_history_example = refl

old_style : postgres_version_to_int (codes "9.3.13") ≡ Version.version (pos 90313)
unfolding postgres_version_to_int is_space strip_left strip_right digits
old_style = refl

new_style : postgres_version_to_int (codes "10.1") ≡ Version.version (pos 100001)
unfolding postgres_version_to_int is_space strip_left strip_right digits
new_style = refl

too_short : postgres_version_to_int (codes "9.6") ≡ Version.invalid_format
unfolding postgres_version_to_int is_space strip_left strip_right digits
too_short = refl

no_number : postgres_version_to_int (codes "a.b.c") ≡ Version.invalid_version
unfolding postgres_version_to_int is_space strip_left strip_right digits
no_number = refl

negative : postgres_version_to_int (codes "10.-1") ≡ Version.unreadable
unfolding postgres_version_to_int is_space strip_left strip_right digits
negative = refl

major : postgres_major_version_to_int (codes "9.6") ≡ Version.version (pos 90600)
unfolding postgres_major_version_to_int is_space strip_left strip_right digits
major = refl

get_major : get_major_from_minor_version 90313 ≡ 90300
unfolding get_major_from_minor_version
get_major = refl
