-- ===== src/Tests/Codecs.antt =====
-- The theorems on the wire format and the cipher at concrete bytes.
use sshd.Base.{
  ◌+◌, ◌<◌, ◌^◌, replicate, out_array, ◌≡◌, refl, true, false, some, Bytes, [], ◌∷◌, ◌++◌, IsByte,
  All, length, arith,
}
use sshd.Wire.{View, view_init, get_string, put_string, put_mpint_positive, big_endian_32}
use sshd.Wire.RoundTrip.{Rest, advance, view_init-Rest, get_string_reads}
use sshd.Wire.Mpint.{big_endian_value, IsCanonical, put_mpint_positive-IsCanonical}
use sshd.Crypto.{
  seq_to_nonce, ct_memcmp16, ct_memcmp_from, poly1305_tag, cc20p1305_seal, cc20p1305_open,
}
use sshd.Crypto.Aead.{cc20p1305_open_needs_tag, cc20p1305_open-seal}
use sshd.Tests.{test_env, test_laws}

abbrev hi : Bytes
hi = 104 ∷ 105 ∷ []

abbrev hi_message : Bytes
hi_message = 0 ∷ 0 ∷ 0 ∷ 2 ∷ 104 ∷ 105 ∷ 9 ∷ []

abbrev hi_read : View
hi_read = record { p = hi_message; n = 7; pos = 6; bad = false }

hi_get : get_string (view_init hi_message) ≡ (some hi, hi_read)
unfolding get_string view_init
hi_get = refl

abbrev hi_written : Bytes
hi_written = put_string [] hi ++ (9 ∷ [])

get_string_reads_example :
    (get_string (view_init hi_written) ≡ (some hi, advance 2 (advance 4 (view_init hi_written))))
    × Rest (advance 2 (advance 4 (view_init hi_written))) (9 ∷ [])
get_string_reads_example =
    get_string_reads (view_init hi_written) hi (9 ∷ []) (omega arith) (view_init-Rest hi_written)

high_bit : Bytes
high_bit = 0 ∷ 200 ∷ 1 ∷ []

high_bit-IsByte : All IsByte high_bit
unfolding high_bit
high_bit-IsByte = ground arith

high_bit_small : length high_bit + 1 < 2 ^ 32
unfolding high_bit
high_bit_small = omega arith

high_bit_positive : 0 < big_endian_value high_bit
unfolding high_bit big_endian_value
high_bit_positive = omega arith

put_mpint_positive-IsCanonical_example :
    (content : Bytes) × (put_mpint_positive hi high_bit
      ≡ hi ++ (big_endian_32 (length content) ++ content))
    × (big_endian_value content ≡ big_endian_value high_bit)
    × IsCanonical content
put_mpint_positive-IsCanonical_example =
    put_mpint_positive-IsCanonical hi high_bit high_bit-IsByte high_bit_positive high_bit_small

abbrev hi_complement : Bytes
hi_complement = 151 ∷ 150 ∷ []

abbrev test_tag : Bytes
test_tag = replicate 16 7

hi_opened : cc20p1305_open test_env [] 3 (1 ∷ []) hi test_tag ≡ some hi_complement
unfolding cc20p1305_open poly1305_tag ct_memcmp16 seq_to_nonce ct_memcmp_from out_array
hi_opened = refl

test_tag-IsByte : All IsByte test_tag
test_tag-IsByte = ground arith

cc20p1305_open_needs_tag_example :
    (poly1305_tag test_env [] (seq_to_nonce 3) (1 ∷ []) hi ≡ some test_tag)
    × (length hi_complement ≡ length hi)
cc20p1305_open_needs_tag_example =
    cc20p1305_open_needs_tag test_env [] 3 (1 ∷ []) hi test_tag hi_complement test_tag-IsByte refl
      hi_opened

cc20p1305_open-seal_example :
    let (sealed, out, tag) = cc20p1305_seal test_env [] 3 (1 ∷ []) hi in
    (sealed ≡ true)
    × (length out ≡ length hi)
    × (length tag ≡ 16)
    × (cc20p1305_open test_env [] 3 (1 ∷ []) out tag ≡ some hi)
cc20p1305_open-seal_example = cc20p1305_open-seal test_env test_laws [] 3 (1 ∷ []) hi (ground arith)
