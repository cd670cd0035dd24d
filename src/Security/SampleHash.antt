-- ===== src/Security/SampleHash.antt =====
-- A hash to evaluate the model with: it returns the bytes that it has seen.
use filedrop.Base.{ℕ, ◌≡◌, sym, ◌∙◌, List, [], ◌∷◌, ◌++◌, append_assoc, append-nil, concat}
use filedrop.Security.Checksum.{Sha256, IsStreaming, update_all}

abbrev pub echo : Sha256
echo = record { State = List ℕ; new = []; update = λ s b. s ++ b; finalize = λ s. s }

update_all-concat :
    (s : List ℕ) (chunks : List (List ℕ)) → update_all echo s chunks ≡ s ++ concat chunks
update_all-concat s [] = sym (append-nil s)
update_all-concat s (c ∷ chunks) =
    update_all-concat (s ++ c) chunks ∙ append_assoc s c (concat chunks)

pub echo-IsStreaming : IsStreaming echo
echo-IsStreaming = record { streams = λ chunks. update_all-concat [] chunks }
