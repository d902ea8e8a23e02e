-- ===== src/Modules/Tests.antt =====
-- The theorems on the blocking read at concrete pieces.
use mini_im.Base.{ℕ, ◌≡◌, refl, List, [], ◌∷◌, ◌++◌, map, arith}
use mini_im.Bytes.{get_field_uint16_t}
use mini_im.Reader.Contents.{concat}
use mini_im.Modules.{got, got_end, packet, receive}
use mini_im.Modules.Pieces.{receive-pieces}

-- A header in three pieces, and two bytes of parameters in two.
abbrev header_pieces : List (List ℕ)
header_pieces = (14 ∷ []) ∷ (0 ∷ 1 ∷ 0 ∷ 2 ∷ []) ∷ (18 ∷ 0 ∷ 0 ∷ 100 ∷ 0 ∷ 0 ∷ 0 ∷ []) ∷ []

abbrev param_pieces : List (List ℕ)
param_pieces = (1 ∷ []) ∷ (0 ∷ []) ∷ []

receive-pieces_example :
    receive (map got header_pieces ++ (map got param_pieces ++ got_end ∷ []))
    ≡ packet (concat header_pieces ++ concat param_pieces) (got_end ∷ [])
receive-pieces_example =
    receive-pieces header_pieces param_pieces (got_end ∷ [])
      (omega arith, (omega arith, (omega arith, tt))) (omega arith, (omega arith, tt)) refl
      (unfold get_field_uint16_t in refl) (omega arith)
