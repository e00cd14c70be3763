-- ===== src/Log/Tests.antt =====
-- Runs of the logger, and the properties at concrete inputs.
use nexer.Prelude.{
  ◌-◌, ◌≤◌, ◌<◌, ◌≡◌, refl, ◌≢◌, ◌⊎◌, true, [], ◌∷◌, ◌++◌, Bytes, codes, length, take,
}
use nexer.Config.Types.{trace, info, warn, critical}
use nexer.Log.{LogState, to_fd, to_stderr, line, buf_size, vprint, log, gate, passes, padded_name}
use nexer.Log.Lines.{vprint-lines}

abbrev stamp : Bytes
stamp = codes "2026-01-01 00:00:00 "

abbrev state : LogState
state = record { fd = 1; level = info }

log-run : log warn state stamp (codes "hm") ≡ to_fd 1 (codes "2026-01-01 00:00:00 WARN hm\n") ∷ []
unfolding log vprint passes gate padded_name
log-run = refl

hm : codes "hm" ≢ []
hm e = cc

vprint-lines_example :
    let whole = line stamp warn (codes "hm") in
    let cut = take (buf_size - 4) whole ++ codes "...\n" in
    ((vprint state stamp warn (codes "hm") ≡ to_fd 1 (whole ++ codes "\n") ∷ [])
      × (length (whole ++ codes "\n") ≤ buf_size))
    ⊎ ((vprint state stamp warn (codes "hm") ≡ to_stderr (whole ++ codes "\n") ∷ to_fd 1 cut ∷ [])
        × (length cut ≡ buf_size)
        × (buf_size < length (whole ++ codes "\n")))
vprint-lines_example = vprint-lines state stamp (codes "hm") warn refl hm

warn≢critical : warn ≢ critical
warn≢critical e = cc

info≢trace : info ≢ trace
info≢trace e = cc

info_passes : passes info (gate info) ≡ true
unfolding passes gate
info_passes = refl
