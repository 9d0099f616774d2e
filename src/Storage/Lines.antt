-- ===== src/Storage/Lines.antt =====
-- The lines that bufio.Scanner makes of a log.
use mathlib.Core.List.{append-nil, append_assoc}
use job_manager_quorum.Common.{◌≡◌, sym, ap, ◌∙◌, false, [], ◌∷◌, ◌++◌, All, ◌==◌}
use job_manager_quorum.Storage.{Bytes, lines}

-- No newline.
abbrev pub IsLine : Bytes → Type 0
IsLine = All (λ c. (c == 10) ≡ false)

pub lines-newline :
    (line cur rest : Bytes)
    → IsLine line
    → lines cur (line ++ 10 ∷ rest) ≡ (cur ++ line) ∷ lines [] rest
unfolding lines
lines-newline [] cur rest h = ap (λ l. l ∷ lines [] rest) (sym (append-nil cur))
lines-newline (c ∷ line) cur rest (h, hs) = rw h (
    lines-newline line (cur ++ c ∷ []) rest hs
    ∙ ap (λ l. l ∷ lines [] rest) (append_assoc cur (c ∷ []) line))
