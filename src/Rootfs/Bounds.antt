-- ===== src/Rootfs/Bounds.antt =====
-- `mantle_rootfs_list` ends, reads nothing outside the image and writes nothing outside the output.
use mantle_os.Base.{
  ℕ, zero, suc, ◌+◌, ◌-◌, ◌≤◌, ◌<◌, ◌≡◌, inl, inr, true, false, ◌||◌, ◌==◌, arith, Bool-cases,
  le→leb, leb-false, add16, add32, sub32, u32_mod,
}
use native.Mathlib.Decide.{dec_le}
use mantle_os.Memory.{Returns, Returns-bind, Anything, Region, read8_lem}
use mantle_os.Rootfs.Listing.{
  word_end, match_length, word_matches, name_seen_from, name_seen, component_length,
}

module _ (output : Region) (length : ℕ) (fits : length ≤ output.size)
    (small : length + 1 < u32_mod) where
  word_end-Returns :
      (from fuel cursor : ℕ)
      → from ≤ cursor
      → cursor ≤ length
      → length - cursor < fuel
      → Returns (word_end output length fuel cursor) (λ stop. (from ≤ stop) × (stop ≤ length))
  unfolding word_end
  word_end-Returns from zero cursor l h f = absurd (omega arith)
  word_end-Returns from (suc fuel) cursor l h f = elim (dec_le length cursor) [
    | yes le ↦ rw (le→leb length cursor le) (omega arith)
    | no gt ↦
        let step : add32 cursor 1 ≡ cursor + 1 = omega arith in
        rw (leb-false length cursor (omega arith), read8_lem output cursor (omega arith))
          (elim (Bool-cases ((output.byte cursor == 32) || (output.byte cursor == 10))) [
            | inl stop ↦ rw stop (l, h)
            | inr on ↦
                rw (on, step)
                  (word_end-Returns from fuel (cursor + 1) (omega arith) (omega arith)
                    (omega arith))
          ])
  ]

module _ (output : Region) (start name_length : ℕ) (fits : start + name_length ≤ output.size)
    (image : Region) (name : ℕ) (inside : name + name_length ≤ image.size)
    (short : name_length ≤ 255) where
  match_length-Returns :
      (fuel index : ℕ)
      → index ≤ name_length
      → name_length - index < fuel
      → Returns
          (match_length output start image name name_length fuel index)
          (λ stop. stop ≤ name_length)
  unfolding match_length
  match_length-Returns zero index h f = absurd (omega arith)
  match_length-Returns (suc fuel) index h f = elim (dec_le name_length index) [
    | yes le ↦ rw (le→leb name_length index le) h
    | no gt ↦
        let step : add16 index 1 ≡ index + 1 = omega arith in
        rw
          (
            leb-false name_length index (omega arith),
            read8_lem output (start + index) (omega arith),
            read8_lem image (name + index) (omega arith),
          )
          (elim (Bool-cases (output.byte (start + index) == image.byte (name + index))) [
            | inl same ↦
                rw (same, step) (match_length-Returns fuel (index + 1) (omega arith) (omega arith))
            | inr other ↦ rw other h
          ])
  ]

module _ (image : Region) (name name_length : ℕ) (inside : name + name_length ≤ image.size)
    (short : name_length ≤ 255) where
  word_matches-Returns :
      (output : Region) (start stop : ℕ)
      → start ≤ stop
      → stop ≤ output.size
      → stop < u32_mod
      → Returns (word_matches output start stop image name name_length) Anything
  unfolding word_matches
  word_matches-Returns output start stop h fits small =
      elim (Bool-cases (sub32 stop start == name_length)) [
        | inr other ↦ rw other tt
        | inl same ↦ rw same (
            Returns-bind (match_length output start image name name_length (suc name_length) 0) _
              (λ stop. stop ≤ name_length) Anything
              (match_length-Returns output start name_length (ground arith) image name inside short
                (suc name_length) 0 (omega arith) (omega arith))
              (λ index h. tt))
      ]

  name_seen_from-Returns :
      (output : Region) (length fuel cursor : ℕ)
      → length ≤ output.size
      → length + 1 < u32_mod
      → cursor ≤ length + 1
      → length - cursor < fuel
      → Returns (name_seen_from output length image name name_length fuel cursor) Anything
  unfolding name_seen_from
  name_seen_from-Returns output length zero cursor fits small h f = absurd (omega arith)
  name_seen_from-Returns output length (suc fuel) cursor fits small h f =
      elim (dec_le length cursor) [
        | yes le ↦ rw (le→leb length cursor le) tt
        | no gt ↦ rw (leb-false length cursor (omega arith)) (
            Returns-bind (word_end output length (suc length) cursor) _
              (λ stop. (cursor ≤ stop) × (stop ≤ length)) Anything
              (word_end-Returns output length fits small cursor (suc length) cursor (omega arith)
                (omega arith) (omega arith))
              λ stop (l, u).
                Returns-bind (word_matches output cursor stop image name name_length) _ Anything
                  Anything (word_matches-Returns output cursor stop l (omega arith) (omega arith))
                  (elim [
                    | true ↦ λ t. tt
                    | false ↦ λ t.
                        let step : add32 stop 1 ≡ stop + 1 = omega arith in
                        rw step (
                          name_seen_from-Returns output length fuel (stop + 1) fits small
                            (omega arith) (omega arith))
                  ]))
      ]

  pub name_seen-Returns :
      (output : Region) (length : ℕ)
      → length ≤ output.size
      → length + 1 < u32_mod
      → Returns (name_seen output length image name name_length) Anything
  unfolding name_seen
  name_seen-Returns output length fits small =
      name_seen_from-Returns output length (suc length) 0 fits small (omega arith) (omega arith)

module _ (image : Region) (name path_length : ℕ) (inside : name + path_length ≤ image.size + 1)
    (short : path_length ≤ 255) where
  pub component_length-Returns :
      (fuel name_length : ℕ)
      → name_length < path_length
      → path_length - name_length < fuel
      → Returns (component_length image name path_length fuel name_length) (λ n. n < path_length)
  unfolding component_length
  component_length-Returns zero n h f = absurd (omega arith)
  component_length-Returns (suc fuel) n h f = elim (dec_le path_length (n + 1)) [
    | yes le ↦ rw (le→leb path_length (n + 1) le) h
    | no gt ↦
        let step : add16 n 1 ≡ n + 1 = omega arith in
        rw (leb-false path_length (n + 1) (omega arith), read8_lem image (name + n) (omega arith))
          (elim (Bool-cases ((image.byte (name + n) == 47) || (image.byte (name + n) == 0))) [
            | inl stop ↦ rw stop h
            | inr on ↦
                rw (on, step) (component_length-Returns fuel (n + 1) (omega arith) (omega arith))
          ])
  ]
