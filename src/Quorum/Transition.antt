-- ===== src/Quorum/Transition.antt =====
-- `Transition` of quorum.py: the new state of one of the two places.
use area.Common.{ℤ, Text}
use area.Collections.{CaseInsensitiveSet}

pub data TransitionType : Type 0 where
  sync quorum restart : TransitionType

pub record Transition : Type 0 where
  pub transition_type : TransitionType
  pub leader : Text
  pub num : ℤ
  pub names : CaseInsensitiveSet
