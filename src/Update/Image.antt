-- ===== src/Update/Image.antt =====
-- `verify_image`: the vectors, the marker and the digest of an image in either flash.
use steelseries_apex_pro_min.Prelude.{
  ℕ, zero, suc, ◌+◌, ◌-◌, ◌/◌, ◌==◌, min, leb, ◌&&◌, not, if◌then◌else◌, Bool, true, false, Option,
  none, some, List, [], ◌++◌, same_bytes,
}
use steelseries_apex_pro_min.Flash.{Io, Action, failed, invalid, ok, err, ◌>>=◌, pure, fail, read}
use steelseries_apex_pro_min.Update.{Manifest, address, base, vectors_valid, scan}

module _ {D : Type 0} (io : Io D) (digest : List ℕ → Option (List ℕ)) (h : Manifest) where
  abbrev pub image_read : Bool → ℕ → ℕ → D → D × Option (List ℕ)
  image_read true offset n = io.app_read (base + offset) n
  image_read false offset n = io.nor_read (address offset) n

  -- The loop at `offset`, with the state of the marker search and what was fed to the hash. It ends
  -- within the rounds of `fuel` that `verify_image` gives: one for each chunk and one for the end.
  unfoldable pub verify_loop : Bool → ℕ → ℕ → ℕ × Bool → List ℕ → Action D (Bool × List ℕ)
  unfolding vectors_valid scan
  verify_loop internal zero offset s fed = fail failed
  verify_loop internal (suc fuel) offset s fed =
      let n = min (h.image_length - offset) 256 in
      let more = read (image_read internal offset n) >>= λ buffer.
      if offset == 0 && not (vectors_valid h.image_length buffer)
      then fail invalid
      else verify_loop internal fuel (offset + n) (scan buffer s) (fed ++ buffer) in
      if leb h.image_length offset then pure (s.1, fed) else more

  abbrev pub judge : Bool × List ℕ → Action D (Unit {0})
  judge (found, fed) d = elim (digest fed) [
    | none ↦ (d, err failed)
    | some sum ↦ (d, if found && same_bytes sum h.sha256 then ok tt else err invalid)
  ]

  unfoldable pub verify_image : Bool → Action D (Unit {0})
  unfolding verify_loop
  verify_image internal = verify_loop internal (h.image_length / 256 + 2) 0 (0, false) [] >>= judge
