-- ===== src/Standby/ReadTests.antt =====
-- Names that are written for quorum commit.
use area.Common.{
  pos, ◌≡◌, refl, true, false, none, some, List, [], ◌∷◌, digits, Text, codes, lower, eq_text,
  ltb_text,
}
use area.Sync.Names.{sorted, insert}
use area.Standby.Token.{is_ident_start, is_ident_char, is_digit, keyword}
use area.Standby.Parse.{parse_sync_standby_names, is_plain, quote_standby_name}
use area.Standby.Format.{
  Writing, sync_param, param_of, quoted_names, has_asterisk, join_names, format_int,
}
use area.Standby.Names.{is_readable}
use area.Standby.Roundtrip.{quorum_of}
use area.Standby.Reread.{parse-sync_param}

abbrev writing : Writing
writing = record {
  supports_multiple_sync = true;
  supports_quorum_commit = true;
  is_quorum_commit_mode = true;
}

abbrev standbys : List Text
standbys = codes "node-2" ∷ codes "Any" ∷ codes "a1" ∷ []

parse-sync_param_example :
    (value : Text) × (sync_param writing standbys (some (pos 2)) ≡ some value)
    × (parse_sync_standby_names value ≡ some (quorum_of 2 (sorted standbys)))
unfolding is_readable is_plain is_ident_start is_ident_char is_digit keyword sorted insert ltb_text
    eq_text lower
parse-sync_param_example = parse-sync_param writing standbys 2 refl refl refl refl refl refl

written : sync_param writing standbys (some (pos 2)) ≡ some (codes "ANY 2 (\"Any\",a1,\"node-2\")")
unfolding sync_param param_of quoted_names has_asterisk quote_standby_name join_names format_int
    digits is_plain is_ident_start is_ident_char is_digit sorted insert ltb_text eq_text lower
written = refl

-- Without a number, and with one name, there is no list.
plain :
    sync_param (record writing { is_quorum_commit_mode = false }) (codes "a1" ∷ []) none
    ≡ some (codes "a1")
unfolding sync_param param_of quoted_names has_asterisk quote_standby_name join_names format_int
    is_plain is_ident_start is_ident_char is_digit sorted insert ltb_text eq_text lower
plain = refl

-- No names although some are asked for.
asterisk : sync_param writing [] (some (pos 1)) ≡ some (codes "ANY 1 (*)")
unfolding sync_param param_of quoted_names has_asterisk join_names format_int digits eq_text
asterisk = refl
