-- ===== src/Log/Lines.antt =====
-- The lines that `vprint` writes.
use nexer.Prelude.{
  ◌+◌, ◌-◌, ◌≤◌, ◌<◌, ◌≡◌, refl, ◌≢◌, ◌⊎◌, inl, inr, [], ◌∷◌, ◌++◌, arith, Bytes, codes, length,
  length-append, take, ltb, Bool-cases, ltb→lt, ltb→le,
}
use nexer.Buffer.Memory.{length-take}
use nexer.Config.Types.{Level}
use nexer.Log.{LogState, to_fd, to_stderr, padded_name, line, buf_size, vprint}

-- A text that is not empty goes to the file in one write of at most 4096 bytes: the whole line,
-- if it fits with its end; otherwise exactly 4096 bytes, the start of the line and "..." before the
-- end, with the whole line on `stderr`. The stamp has 20 bytes.
pub vprint-lines :
    (state : LogState) (stamp text : Bytes) (level : Level)
    → length stamp ≡ 20
    → text ≢ []
    → let whole = line stamp level text in
      let cut = take (buf_size - 4) whole ++ codes "...\n" in
      ((vprint state stamp level text ≡ to_fd state.fd (whole ++ codes "\n") ∷ [])
        × (length (whole ++ codes "\n") ≤ buf_size))
      ⊎ ((vprint state stamp level text ≡ to_stderr (whole ++ codes "\n") ∷ to_fd state.fd cut ∷ [])
          × (length cut ≡ buf_size)
          × (buf_size < length (whole ++ codes "\n")))
unfolding vprint
vprint-lines state stamp [] level h n = absurd (n refl)
vprint-lines state stamp (c ∷ s) level h n =
    let text = c ∷ s in
    let whole = line stamp level text in
    let name = padded_name level in
    let l1 = length-append (stamp ++ name) text in
    let l2 = length-append stamp name in
    let l3 = length-append whole (codes "\n") in
    let l4 = length-append (take (buf_size - 4) whole) (codes "...\n") in
    elim (Bool-cases (ltb (20 + length name + length text) buf_size)) [
      | inl e ↦ let short = ltb→lt _ _ e in inl (rw e, omega arith)
      | inr e ↦
          let long = ltb→le _ _ e in
          let l5 = length-take (buf_size - 4) whole (omega arith) in
          inr (rw e, omega arith, omega arith)
    ]
