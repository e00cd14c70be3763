-- ===== src/Log/Gates.antt =====
-- Which messages pass.
use nexer.Prelude.{◌≤◌, ◌≡◌, refl, ◌≢◌, true, false, [], arith, Bytes, leb→le, le→leb}
use nexer.Config.Types.{Level, trace, debug, info, warn, error, fatal, critical}
use nexer.Log.{LogState, rank, gate, passes, log}

passes-rank : (level m : Level) → rank m ≤ 4 → passes level (gate m) ≡ true → rank level ≤ rank m
unfolding passes gate
passes-rank level trace h p = leb→le _ _ p
passes-rank level debug h p = leb→le _ _ p
passes-rank level info h p = leb→le _ _ p
passes-rank level warn h p = leb→le _ _ p
passes-rank level error h p = leb→le _ _ p
passes-rank level fatal h p = absurd (omega arith)
passes-rank level critical h p = absurd (omega arith)

rank-passes : (level n : Level) → n ≢ critical → rank level ≤ rank n → passes level (gate n) ≡ true
unfolding passes gate
rank-passes level trace c h = le→leb _ _ h
rank-passes level debug c h = le→leb _ _ h
rank-passes level info c h = le→leb _ _ h
rank-passes level warn c h = le→leb _ _ h
rank-passes level error c h = le→leb _ _ h
rank-passes level fatal c h = refl
rank-passes level critical c h = absurd (c refl)

-- Of two methods below `critical`, the more severe one passes wherever the other does.
pub passes-gate :
    (level m n : Level)
    → rank m ≤ rank n
    → n ≢ critical
    → passes level (gate m) ≡ true
    → passes level (gate n) ≡ true
unfolding passes gate
passes-gate level m critical h c p = absurd (c refl)
passes-gate level m fatal h c p = refl
passes-gate level m trace h c p =
    rank-passes level trace c (omega (arith, passes-rank level m (omega arith) p))
passes-gate level m debug h c p =
    rank-passes level debug c (omega (arith, passes-rank level m (omega arith) p))
passes-gate level m info h c p =
    rank-passes level info c (omega (arith, passes-rank level m (omega arith) p))
passes-gate level m warn h c p =
    rank-passes level warn c (omega (arith, passes-rank level m (omega arith) p))
passes-gate level m error h c p =
    rank-passes level error c (omega (arith, passes-rank level m (omega arith) p))

critical-passes : (level : Level) → level ≢ trace → passes level (gate critical) ≡ false
unfolding passes gate
critical-passes trace h = absurd (h refl)
critical-passes debug h = refl
critical-passes info h = refl
critical-passes warn h = refl
critical-passes error h = refl
critical-passes fatal h = refl
critical-passes critical h = refl

-- Unless the level is `trace`, a critical message is dropped.
pub log-critical :
    (state : LogState) (stamp text : Bytes)
    → state.level ≢ trace
    → log critical state stamp text ≡ []
unfolding log
log-critical state stamp text h = rw (critical-passes state.level h)
