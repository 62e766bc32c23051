-- ===== src/RootMemory/Returns.antt =====
-- Memory that a client gives back to usr/root/memory.c.
use bradyp_os.Base.{
  ℕ, zero, suc, ◌+◌, ◌*◌, ◌/◌, ◌^◌, ◌≤◌, ◌<◌, ◌≡◌, refl, ap, ◌∙◌, ◌>>=◌, Option, some, List, ◌∷◌,
  arith,
}
use native.Mathlib.Nat.{pow-le-pow_right, pow-succ'}
use bradyp_os.Memory.Tag
use bradyp_os.Pages.{linked_list_free_pages}
use bradyp_os.Pages.Ranges.{Range, total, Clear, Clear-part}
use bradyp_os.Pages.Refines.{Holds, linked_list_free_pages-Holds}
use bradyp_os.Fpage
use bradyp_os.Fpage.{Fpage}
use bradyp_os.Fpage.Laws.{IsWord, grant_item_roundtrip, shifted_one-small, pow_pos}
use bradyp_os.RootMemory.{Root, load_mr, handle_ipc_free}

pow_nine : (k : ℕ) → 2 ^ (k + 9) ≡ 512 * 2 ^ k
pow_nine zero = refl
pow_nine (suc k) =
    let same : suc k + 9 ≡ suc (k + 9) = omega arith in
    omega (arith, ap (λ m. 2 ^ m) same, pow-succ' 2 (k + 9), pow-succ' 2 k, pow_nine k)

pages_of_size : (k : ℕ) → 2 ^ (k + 9) / 512 ≡ 2 ^ k
pages_of_size k = omega (arith, pow_nine k)

pages_of_address : (f : Fpage) → Fpage.address f / 512 ≡ f.b
unfolding Fpage.address
pages_of_address f = omega arith

module _ (unmap : (control : ℕ) → (ℕ → ℕ) → ℕ → ℕ) (s : Root) (msg_tag : ℕ) (f : Fpage)
    (u : Tag.untyped_words msg_tag ≡ 2) (t : Tag.typed_words msg_tag ≡ 0) (w : IsWord f)
    (given : s.mrs 1 ≡ Fpage.raw f) (small : f.s < 23) where
  -- The message registers behind the call, and the pages.
  after : Root
  after = record {
    pages = linked_list_free_pages s.pages f.b (2 ^ f.s);
    mrs = load_mr 0 (Tag.make 0 0 0 1) (unmap 64 (load_mr 0 (Fpage.raw f) s.mrs));
  }

  -- The state behind the call for the flexpage `g`.
  given_back : Fpage → Option Root
  given_back g = Fpage.size g >>= λ size. some (record {
    pages = linked_list_free_pages s.pages (Fpage.address g / 512) (size / 512);
    mrs = load_mr 0 (Tag.make 0 0 0 1) (unmap 64 (load_mr 0 (Fpage.raw g) s.mrs));
  })

  free_step : handle_ipc_free unmap s msg_tag ≡ given_back (Fpage.of_raw (s.mrs 1))
  unfolding handle_ipc_free given_back
  free_step = rw (u, t)

  sized : Fpage.size f ≡ some (2 ^ (f.s + 9))
  unfolding Fpage.size
  sized = shifted_one-small f.s small

  free_run : handle_ipc_free unmap s msg_tag ≡ some after
  free_run =
      let back : Fpage.of_raw (s.mrs 1) ≡ f =
        ap Fpage.of_raw given ∙ (grant_item_roundtrip f 0 w (omega arith)).0 in
      free_step ∙ ap given_back back ∙ last
    where
      last : given_back f ≡ some after
      last =
          unfold given_back after in rw (sized, ◌>>=◌, pages_of_size f.s, pages_of_address f) refl

  -- A flexpage that a client gives back, with a message of two untyped words and no typed one, is the
  -- first free range, of 2 ^ s pages for the size field s (at most 22), where no page of it was free.
  pub handle_ipc_free-Holds :
      (ys : List Range)
      → Holds s.pages ys
      → Clear f.b (2 ^ f.s) ys
      → (s' : Root) × (handle_ipc_free unmap s msg_tag ≡ some s')
        × Holds s'.pages ((f.b, 2 ^ f.s) ∷ ys)
  unfolding after
  handle_ipc_free-Holds ys h c =
      (after, free_run, linked_list_free_pages-Holds s.pages f.b (2 ^ f.s) ys h (pow_pos f.s) c)

  -- A client that gives back all that it was granted leaves 2 ^ (s + 9) - 2 ^ s pages lost: where a grant
  -- of the flexpage has taken 2 ^ (s + 9) pages from free ranges, its return adds 2 ^ s pages.
  pub handle_ipc_free_loses :
      (xs ys : List Range)
      → Holds s.pages ys
      → Clear f.b (2 ^ (f.s + 9)) ys
      → total ys + 2 ^ (f.s + 9) ≡ total xs
      → (s' : Root) × (zs : List Range) × (handle_ipc_free unmap s msg_tag ≡ some s')
        × Holds s'.pages zs
        × (total zs + 2 ^ (f.s + 9) ≡ total xs + 2 ^ f.s)
  handle_ipc_free_loses xs ys h c count =
      let le : 2 ^ f.s ≤ 2 ^ (f.s + 9) =
        pow-le-pow_right {n = 2} (omega arith) {i = f.s} {j = f.s + 9} (omega arith) in
      let part =
        Clear-part f.b (2 ^ (f.s + 9)) f.b (2 ^ f.s) ys c (omega arith) (omega (arith, le)) in
      let (s', run, holds) = handle_ipc_free-Holds ys h part in
      (s', (f.b, 2 ^ f.s) ∷ ys, run, holds, omega (arith, count))
