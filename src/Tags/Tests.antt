-- ===== src/Tags/Tests.antt =====
-- Tags of a node that may not be promoted.
use area.Common.{pos, ◌≡◌, refl, false, none, some, [], ◌∷◌, codes, eq_text}
use area.Tags.{
  TagValue, Tags, clonefrom, nofailover, failover_priority, noloadbalance, nosync, sync_priority,
  filter_tags, nostream, replicatefrom,
}
use area.Tags.Filter.{distinct_names, flag_of, flags_agree, filter_tags-properties}

abbrev zero_value : TagValue
zero_value = record { truth = false; number = some (pos 0); flag = some false; text = codes "0" }

abbrev false_value : TagValue
false_value = record { truth = false; number = none; flag = some false; text = codes "False" }

abbrev tags : Tags
tags =
    record { name = codes "nofailover"; value = some false_value }
    ∷ record { name = codes "failover_priority"; value = some zero_value }
    ∷ []

filter_tags-properties_example :
    (nofailover (filter_tags tags) ≡ nofailover tags)
    × (failover_priority (filter_tags tags) ≡ failover_priority tags)
    × (nosync (filter_tags tags) ≡ nosync tags)
    × (sync_priority (filter_tags tags) ≡ sync_priority tags)
    × (clonefrom (filter_tags tags) ≡ clonefrom tags)
    × (noloadbalance (filter_tags tags) ≡ noloadbalance tags)
    × (nostream (filter_tags tags) ≡ nostream tags)
    × (replicatefrom (filter_tags tags) ≡ replicatefrom tags)
unfolding distinct_names flags_agree flag_of eq_text
filter_tags-properties_example = filter_tags-properties tags refl refl
