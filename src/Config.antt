-- ===== src/Config.antt =====
-- config.py: the policy enums.
pub data EffectSafety : Type 0 where
  off warn strict : EffectSafety

pub data NondeterminismPolicy : Type 0 where
  off warn strict : NondeterminismPolicy

pub data VersionMismatchPolicy : Type 0 where
  off warn strict : VersionMismatchPolicy
