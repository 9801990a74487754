-- ===== src/Tests/Download.antt =====
-- The theorem on the downloader (download_serv.c, download_clnt.c) at work.
use network_camp.Prelude.{
  sym, ◌∙◌, map, All, zero, suc, ap, length, ◌≤◌, ℕ, Option, some, true, false, List, [], ◌∷◌, ◌≡◌,
  refl, subst, arith, ◌<◌, get_elem?, same_word,
}
use mathlib.Core.Option.{some-injective}
use network_camp.Transfer.{blocked}
use network_camp.Transfer.Int.{int_half}
use network_camp.Transfer.Complete.{flat}
use network_camp.Download.{
  Entry, Listed, add_listed, create_array, answer, leave, choose, got, client_round,
}
use network_camp.Download.Loop.{download_files, IsWanted, download_files-contents}
use network_camp.Download.Session.{client_round-blocks}

-- Every file has two bytes.
abbrev contents : List ℕ → Option (List ℕ)
contents name = some (1 ∷ 2 ∷ [])

abbrev listed : List Listed
listed =
    record { d_name = b'.' ∷ []; is_regular = false }
    ∷ record { d_name = b'a' ∷ []; is_regular = true }
    ∷ record { d_name = b'd' ∷ []; is_regular = false }
    ∷ record { d_name = b'b' ∷ []; is_regular = true }
    ∷ []

abbrev file_a : Entry
file_a = record { file_name = b'a' ∷ []; file_size = 2 }

abbrev file_b : Entry
file_b = record { file_name = b'b' ∷ []; file_size = 2 }

abbrev files : List Entry
files = file_a ∷ file_b ∷ []

created : create_array contents [] listed ≡ some files
unfolding create_array add_listed same_word
created = refl

-- The files `b`, `a` and `b`.
download_files-contents_example :
    (saved : List (List ℕ × List ℕ)) × (download_files contents
        (λ j. 0)
        listed
        (choose 1 ∷ choose 0 ∷ choose 1 ∷ leave ∷ [])
      ≡ some saved)
    × All (λ (x : List ℕ × List ℕ). contents x.0 ≡ some x.1) saved
    × (map (λ (x : List ℕ × List ℕ). some x.0) saved
        ≡ some (b'b' ∷ []) ∷ some (b'a' ∷ []) ∷ some (b'b' ∷ []) ∷ [])
download_files-contents_example =
    download_files-contents contents (λ j. 0) listed files 1 (0 ∷ 1 ∷ []) [] created
      (
        wanted 1 file_b refl (omega arith) refl,
        (wanted 0 file_a refl (omega arith) refl, (wanted 1 file_b refl (omega arith) refl, tt)),
      )
  where
    wanted :
        (i : ℕ) (f : Entry)
        → get_elem? files i ≡ some f
        → i < 2
        → f.file_size ≡ 2
        → IsWanted contents (λ j. 0) files i
    wanted i f at lt size = (
      lt,
      λ g e.
          subst (λ (x : Entry). (0 < x.file_size) × (x.file_size < int_half))
            (some-injective f g (sym at ∙ e)) (omega (arith, size), omega (arith, size)),
    )

-- A file of 2 ^ 31 bytes.
zeros : ℕ → List ℕ
zeros zero = []
zeros (suc n) = 0 ∷ zeros n

length-zeros : (n : ℕ) → length (zeros n) ≡ n
unfolding zeros
length-zeros zero = refl
length-zeros (suc n) = ap suc (length-zeros n)

abbrev long_contents : List ℕ → Option (List ℕ)
long_contents name = some (zeros int_half)

abbrev long_file : Entry
long_file = record { file_name = b'a' ∷ []; file_size = length (zeros int_half) }

created_long :
    create_array long_contents [] (record { d_name = b'a' ∷ []; is_regular = true } ∷ [])
    ≡ some (long_file ∷ [])
unfolding create_array add_listed same_word
created_long = refl

client_round-blocks_example :
    (f : Entry) × (bytes : List ℕ) × (buffers : List (List ℕ)) × (get_elem? (long_file ∷ []) 0
      ≡ some f)
    × (long_contents f.file_name ≡ some bytes)
    × (answer long_contents (long_file ∷ []) 0 ≡ some buffers)
    × (client_round (λ j. 0) (long_file ∷ []) (choose 0) (flat buffers)
        ≡ some (got 0 f.file_name (blocked bytes)))
client_round-blocks_example =
    client_round-blocks long_contents (record { d_name = b'a' ∷ []; is_regular = true } ∷ [])
      (long_file ∷ []) 0 (λ j. 0) created_long (omega arith)
      (λ f e.
        subst (λ (g : Entry). int_half ≤ g.file_size) (some-injective long_file f e)
          (omega (arith, length-zeros int_half)))
