-- ===== src/Tests/Strings.antt =====
-- userspace/libc/mantle-string.c on two commands.
use mantle_os.Base.{ℕ, ◌≡◌, refl, false, List, [], ◌∷◌, length, arith}
use mantle_os.Memory.{done, Region, read8}
use mantle_os.Rootfs.Format.{same}
use mantle_os.Strings.{strlen, streq, streq_from}
use mantle_os.Strings.Compare.{HoldsFrom, strlen-length, streq-same}
use mantle_os.Tests.Bytes.{region}

abbrev ls : Region
ls = region (b'l' ∷ b's' ∷ 0 ∷ [])

abbrev ls_text : List ℕ
ls_text = b'l' ∷ b's' ∷ []

abbrev long : Region
long = region (b'l' ∷ b's' ∷ b'x' ∷ 0 ∷ [])

ls-HoldsFrom : HoldsFrom ls 0 (b'l' ∷ b's' ∷ [])
ls-HoldsFrom = omega arith

long-HoldsFrom : HoldsFrom long 0 (b'l' ∷ b's' ∷ b'x' ∷ [])
long-HoldsFrom = omega arith

differ : streq ls long ≡ done false
unfolding streq streq_from read8
differ = refl

strlen-length_example : strlen ls ≡ done (length ls_text)
strlen-length_example = strlen-length (b'l' ∷ b's' ∷ []) ls ls-HoldsFrom

streq-same_example : streq ls long ≡ done (same (b'l' ∷ b's' ∷ []) (b'l' ∷ b's' ∷ b'x' ∷ []))
streq-same_example =
    streq-same (b'l' ∷ b's' ∷ []) (b'l' ∷ b's' ∷ b'x' ∷ []) ls long ls-HoldsFrom long-HoldsFrom
