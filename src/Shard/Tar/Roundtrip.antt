-- ===== src/Shard/Tar/Roundtrip.antt =====
-- packages/core/src/shard/shard-tar.ts: an archive is decoded to the files that were encoded.
use Prim.Native.Nat.{◌/◌, ◌*◌}
use fortemi_react.Common.{
  ℕ, zero, suc, ◌+◌, ◌≡◌, ◌≤◌, ◌<◌, inl, inr, refl, sym, ap, ◌∙◌, true, false, none, [], ◌∷◌, ◌++◌,
  length, length-append, ltb, All, Bool-cases, arith, append_assoc, append-nil, ◌==◌, ==_refl,
  ==_iff,
}
use fortemi_react.Common.Dict
use fortemi_react.Common.Dict.{Dict, IsKeyed, set_new, get-set}
use fortemi_react.Shard.Tar.Buffers.{
  Bytes, Units, units_eq, get_elem?, get_elem?-append, zeros, length-zeros, get_elem?-zeros,
}
use fortemi_react.Shard.Tar.Header.{length-create_tar_header}
use fortemi_react.Shard.Tar.Encode.{create_tar_header, padding, encode_files, encode_tar}
use fortemi_react.Shard.Tar.Decode.{is_zero_run, decoded, decode_loop, decode_tar}
use fortemi_react.Shard.Tar.Step.{Fits, whole, decode_step, padding_lem, is_zero_run-true}

abbrev IsFresh : Dict Units Bytes → Dict Units Bytes → Type 0
IsFresh acc files = All (λ e. Dict.get e.0 acc ≡ none) files

==_sym_false : (j k : Units) → (j == k) ≡ false → (k == j) ≡ false
==_sym_false j k h = elim (Bool-cases (k == j)) [
  | inl t ↦
      let same : k ≡ j = (==_iff k j).0 t in
      let again : (j == k) ≡ true = rw same (==_refl j) in absurd (cc (sym again ∙ h))
  | inr t ↦ t
]

IsFresh-set :
    (k : Units) (v : Bytes) (acc files : Dict Units Bytes)
    → Dict.get k files ≡ none
    → IsFresh acc files
    → IsFresh (Dict.set k v acc) files
unfolding Dict.get
IsFresh-set k v acc [] h f = tt
IsFresh-set k v acc ((j, w) ∷ files) h f = elim (Bool-cases (j == k)) [
  | inl t ↦ absurd (cc (rw t at h))
  | inr t ↦
      let other : (k == j) ≡ false = ==_sym_false j k t in
      (get-set k j v acc ∙ rw other f.0, IsFresh-set k v acc files (rw t at h) f.1)
]

end_lem :
    (pre buf : Bytes) (fuel : ℕ) (acc : Dict Units Bytes)
    → buf ≡ pre ++ zeros 1024
    → decode_loop (suc fuel) buf (length pre) acc ≡ decoded acc
unfolding decode_loop
end_lem pre buf fuel acc e =
    let blank : is_zero_run buf (length pre) 512 ≡ true =
      is_zero_run-true buf (length pre) 512 (λ i l.
        ap (λ b. get_elem? b (length pre + i)) e
        ∙ get_elem?-append pre (zeros 1024) i
        ∙ get_elem?-zeros 1024 i (omega (arith, l))) in
    elim (Bool-cases (ltb (length buf) (length pre + 512))) [
      | inl t ↦ rw (t, decode_loop) refl
      | inr t ↦ rw (t, decode_loop) (rw blank refl)
    ]

blocks_apart :
    (pre h b g r z : Bytes) → pre ++ (h ++ b ++ g ++ r ++ z) ≡ pre ++ (h ++ (b ++ (g ++ (r ++ z))))
blocks_apart pre h b g r z =
    ap (λ xs. pre ++ xs)
      (append_assoc (h ++ b ++ g) r z
        ∙ append_assoc (h ++ b) g (r ++ z)
        ∙ append_assoc h b (g ++ (r ++ z)))

blocks_joined : (pre h b g m : Bytes) → pre ++ (h ++ (b ++ g)) ++ m ≡ pre ++ (h ++ (b ++ (g ++ m)))
blocks_joined pre h b g m =
    append_assoc pre (h ++ (b ++ g)) m
    ∙ ap (λ xs. pre ++ xs) (append_assoc h (b ++ g) m ∙ ap (λ xs. h ++ xs) (append_assoc b g m))

decode_loop-encode_files :
    (files acc : Dict Units Bytes) (pre buf : Bytes) (fuel : ℕ)
    → All Fits files
    → IsKeyed files
    → IsFresh acc files
    → length files < fuel
    → buf ≡ pre ++ (encode_files files ++ zeros 1024)
    → decode_loop fuel buf (length pre) acc ≡ decoded (acc ++ files)
unfolding encode_files
decode_loop-encode_files files acc pre buf zero fits keyed fresh enough e =
    absurd (omega (arith, enough))
decode_loop-encode_files [] acc pre buf (suc fuel) fits keyed fresh enough e =
    end_lem pre buf fuel acc e ∙ ap decoded (sym (append-nil acc))
decode_loop-encode_files ((name, bytes) ∷ files) acc pre buf (suc fuel) fits keyed fresh enough e =
    let h = create_tar_header name (length bytes) in
    let gap = zeros (padding (length bytes)) in
    let more = encode_files files ++ zeros 1024 in
    let pre' = pre ++ (h ++ (bytes ++ gap)) in
    let laid : buf ≡ whole pre more name bytes =
      e ∙ blocks_apart pre h bytes gap (encode_files files) (zeros 1024) in
    let onwards : buf ≡ pre' ++ more = laid ∙ sym (blocks_joined pre h bytes gap more) in
    let next : length pre + 512 + (length bytes + 511) / 512 * 512 ≡ length pre' = omega (
      arith,
      padding_lem (length bytes),
      length-append pre (h ++ (bytes ++ gap)),
      length-append h (bytes ++ gap),
      length-append bytes gap,
      length-zeros (padding (length bytes)),
      length-create_tar_header name (length bytes),
    ) in
    ap (λ b. decode_loop (suc fuel) b (length pre) acc) laid
    ∙ decode_step pre more name bytes fuel acc fits.0
    ∙ ap
        (λ b.
          decode_loop fuel b (length pre + 512 + (length bytes + 511) / 512 * 512)
            (Dict.set name bytes acc))
        (sym laid)
    ∙ ap (λ n. decode_loop fuel buf n (Dict.set name bytes acc)) next
    ∙ decode_loop-encode_files files (Dict.set name bytes acc) pre' buf fuel fits.1 keyed.1
        (IsFresh-set name bytes acc files keyed.0 fresh.1) (omega (arith, enough)) onwards
    ∙ ap (λ a. decoded (a ++ files)) (set_new name bytes acc fresh.0)
    ∙ ap decoded (append_assoc acc ((name, bytes) ∷ []) files)

length-encode_files : (files : Dict Units Bytes) → length files ≤ length (encode_files files)
unfolding encode_files
length-encode_files [] = omega arith
length-encode_files ((name, bytes) ∷ files) =
    let h = create_tar_header name (length bytes) in
    let gap = zeros (padding (length bytes)) in
    omega (
      arith,
      length-encode_files files,
      length-append (h ++ bytes ++ gap) (encode_files files),
      length-append (h ++ bytes) gap,
      length-append h bytes,
      length-create_tar_header name (length bytes),
    )

-- Files that fit, each name once, are decoded from their archive in their order, with their bytes; the fuel is
-- enough.
pub decode_tar-encode_tar :
    (files : Dict Units Bytes)
    → All Fits files
    → IsKeyed files
    → decode_tar (encode_tar files) ≡ decoded files
unfolding decode_tar encode_tar Dict.get
decode_tar-encode_tar files fits keyed =
    decode_loop-encode_files files [] [] (encode_files files ++ zeros 1024)
      (suc (length (encode_files files ++ zeros 1024))) fits keyed (fresh files)
      (omega (arith, length-encode_files files, length-append (encode_files files) (zeros 1024)))
      refl
  where
    fresh : (fs : Dict Units Bytes) → IsFresh [] fs
    fresh [] = tt
    fresh (f ∷ fs) = (refl, fresh fs)
