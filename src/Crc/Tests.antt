-- ===== src/Crc/Tests.antt =====
-- The CRC routines at concrete bytes.
use steelseries_apex_pro_min.Prelude.{◌≡◌, [], ◌∷◌, ◌++◌, arith}
use steelseries_apex_pro_min.Crc.{crc, crc32_step}
use steelseries_apex_pro_min.Crc.Chain.{crc32_step-append}

-- The image is read as 1, 2, 3 and then 4, 5.
crc_in_pieces :
    (crc32_step 0 (1 ∷ 2 ∷ 3 ∷ []) ≡ crc (1 ∷ 2 ∷ 3 ∷ []))
    × (crc32_step (crc32_step 7 (1 ∷ 2 ∷ 3 ∷ [])) (4 ∷ 5 ∷ [])
        ≡ crc32_step 7 ((1 ∷ 2 ∷ 3 ∷ []) ++ (4 ∷ 5 ∷ [])))
crc_in_pieces =
    crc32_step-append 7 (1 ∷ 2 ∷ 3 ∷ []) (4 ∷ 5 ∷ []) (omega arith)
      (omega arith, (omega arith, (omega arith, tt)))
