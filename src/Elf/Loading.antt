-- ===== src/Elf/Loading.antt =====
-- The segments that lib/elf/elf.c loads.
use bradyp_os.Base.{
  ℕ, ◌+◌, ◌<◌, ◌≡◌, ◌≢◌, ◌⊎◌, inl, inr, refl, ap, sym, ◌∙◌, Bool, Option, none, some, List, [], ◌∷◌,
  ◌==◌, Bool-cases, bind_inv, eq_of_test, ne_of_test, if_inv, some_inj, arith,
}
use mathlib.Core.Path.{subst}
use bradyp_os.Elf.Addresses.{IsTranslated, linked_to_loaded_addr-IsTranslated}
use bradyp_os.Elf.{
  Ehdr, headers, phdr_at, loaded, validate_elf_header, ElfError, elf_ok, iface_error, invalid_elf,
  unknown_reloc, nodyn, nosym, load_result, load_elf_file, Phdr, Segment, ElfState,
  elf_flags_to_libelf_access, add_segment, linked_to_loaded_addr, place_segment, load_segments,
}

-- From the entry `n` on the segments are those of the headers to load, in order, and there are no more.
abbrev pub AreLoaded : (n : ℕ) → ElfState → List Phdr → Type 0
AreLoaded n s [] = s.num_segments ≡ n
AreLoaded n s (p ∷ ps) =
    ((p.p_type ≡ 1)
      × ((s.segments n).linked_addr ≡ p.p_vaddr)
      × ((s.segments n).size ≡ p.p_memsz)
      × ((s.segments n).perm ≡ elf_flags_to_libelf_access p.p_flags)
      × AreLoaded (n + 1) s ps)
    ⊎ ((p.p_type ≢ 1) × AreLoaded n s ps)

module _ (s : ElfState) (g : Segment) where
  add_segment_lem :
      ((add_segment s g).num_segments ≡ s.num_segments + 1)
      × ((add_segment s g).segments s.num_segments ≡ g)
  unfolding add_segment
  add_segment_lem = (refl, ground arith)

  add_segment-kept : (j : ℕ) → j < s.num_segments → (add_segment s g).segments j ≡ s.segments j
  unfolding add_segment
  add_segment-kept j lt = ground (arith, lt)

-- The segment of a header.
abbrev pub segment_of : Phdr → (loc : ℕ) → Segment
segment_of p loc = record {
  linked_addr = p.p_vaddr;
  loaded_addr = loc;
  size = p.p_memsz;
  perm = elf_flags_to_libelf_access p.p_flags;
}

-- The entry point is no part of a segment.
entry_apart :
    (ps : List Phdr) (n : ℕ) (s : ElfState) (e_entry : ℕ)
    → AreLoaded n s ps
    → AreLoaded n (record s { entry_point = linked_to_loaded_addr s e_entry }) ps
entry_apart [] n s e_entry a = a
entry_apart (p ∷ ps) n s e_entry (inl a) =
    inl (a.0, a.1, a.2, a.3, entry_apart ps (n + 1) s e_entry a.4)
entry_apart (p ∷ ps) n s e_entry (inr a) = inr (a.0, entry_apart ps n s e_entry a.1)

module _ (map : (n offset size align align_offset perm : ℕ) → Option ℕ)
    (alloc_rw : (n size align align_offset perm : ℕ) → Option ℕ)
    (read_into : (n offset size loc : ℕ) → Bool) where
  no_headers : (s : ElfState) → some s ≡ load_segments map alloc_rw read_into [] s
  unfolding load_segments
  no_headers s = refl

  -- The load of the headers keeps the segments that are there.
  load_segments-kept :
      (ps : List Phdr) (s s' : ElfState)
      → load_segments map alloc_rw read_into ps s ≡ some s'
      → (j : ℕ) → j < s.num_segments
      → s'.segments j ≡ s.segments j
  unfolding load_segments
  load_segments-kept [] s s' h j lt = ap (λ (x : ElfState). x.segments j) (sym (some_inj h))
  load_segments-kept (p ∷ ps) s s' h j lt = elim (if_inv (p.p_type == 1) h) [
    | inl load ↦
        let (loc, placed, rest) = bind_inv (place_segment map alloc_rw read_into s p _) _ load in
        let g = segment_of p loc in
        load_segments-kept ps (add_segment s g) s' rest j
          (omega (arith, lt, (add_segment_lem s g).0))
        ∙ add_segment-kept s g j lt
    | inr h1 ↦ elim (if_inv (p.p_type == 2) h1) [
      | inl dynamic ↦
          load_segments-kept ps (record s { phdrs = linked_to_loaded_addr s p.p_vaddr }) s' dynamic
            j lt
      | inr other ↦ load_segments-kept ps s s' other j lt
    ]
  ]

  -- The rounds of the loop.
  load_round :
      (p : Phdr) (ps : List Phdr) (s s' : ElfState)
      → load_segments map alloc_rw read_into (p ∷ ps) s ≡ some s'
      → ((p.p_type ≡ 1)
          × ((loc : ℕ) × (load_segments map alloc_rw read_into ps (add_segment s (segment_of p loc))
                ≡ some s')))
        ⊎ ((p.p_type ≢ 1)
            × ((q : ℕ) × (load_segments map alloc_rw read_into ps (record s { phdrs = q })
                  ≡ some s')))
  unfolding load_segments
  load_round p ps s s' h = elim (Bool-cases (p.p_type == 1)) [
    | inl load ↦
        let (loc, placed, rest) =
          bind_inv (place_segment map alloc_rw read_into s p (elf_flags_to_libelf_access p.p_flags))
            (λ loc. load_segments map alloc_rw read_into ps (add_segment s (segment_of p loc)))
            (rw load at h) in
        inl (eq_of_test _ _ load, (loc, rest))
    | inr other ↦ inr (
      ne_of_test _ _ other,
      elim (if_inv (p.p_type == 2) (rw other at h)) [
        | inl dynamic ↦ (linked_to_loaded_addr s p.p_vaddr, dynamic)
        | inr plain ↦ (s.phdrs, plain)
      ],
    )
  ]

  -- Where the load of the program headers succeeds, the segments from the first free entry on are those of
  -- the PT_LOAD headers, in order, with their addresses, sizes and access rights, and there are as many,
  -- whatever the number of entries that the caller has.
  pub load_segments-AreLoaded :
      (ps : List Phdr) (s s' : ElfState)
      → load_segments map alloc_rw read_into ps s ≡ some s'
      → AreLoaded s.num_segments s' ps
  load_segments-AreLoaded [] s s' h =
      ap (λ (x : ElfState). x.num_segments) (sym (some_inj (no_headers s ∙ h)))
  load_segments-AreLoaded (p ∷ ps) s s' h = elim (load_round p ps s s' h) [
    | inl (load, (loc, rest)) ↦
        let g = segment_of p loc in
        let added = add_segment_lem s g in
        let kept : s'.segments s.num_segments ≡ g =
          load_segments-kept ps (add_segment s g) s' rest s.num_segments (omega (arith, added.0))
          ∙ added.1 in
        inl (
          load,
          ap (λ (x : Segment). x.linked_addr) kept,
          ap (λ (x : Segment). x.size) kept,
          ap (λ (x : Segment). x.perm) kept,
          subst (λ n. AreLoaded n s' ps) added.0
              (load_segments-AreLoaded ps (add_segment s g) s' rest),
        )
    | inr (other, (q, rest)) ↦
        inr (other, load_segments-AreLoaded ps (record s { phdrs = q }) s' rest)
  ]

  load_finished :
      (s s' : ElfState) (e_entry : ℕ) (ps : List Phdr) (e : ElfError) (o : Option ElfState)
      → load_segments map alloc_rw read_into ps s ≡ o
      → load_result e o e_entry ≡ loaded s'
      → (e ≡ elf_ok)
        × AreLoaded s.num_segments s' ps
        × IsTranslated s'.num_segments 0 s'.segments e_entry s'.entry_point
  load_finished s s' e_entry ps elf_ok none run h = absurd (cc (h))
  load_finished s s' e_entry ps elf_ok (some t) run h =
      let done : record t { entry_point = linked_to_loaded_addr t e_entry } ≡ s' = cc (h) in
      subst
        (λ x.
          (elf_ok ≡ elf_ok)
          × AreLoaded s.num_segments x ps
          × IsTranslated x.num_segments 0 x.segments e_entry x.entry_point)
        done
        (
          refl,
          entry_apart ps s.num_segments t e_entry (load_segments-AreLoaded ps s t run),
          linked_to_loaded_addr-IsTranslated t e_entry,
        )
  load_finished s s' e_entry ps iface_error o run h = absurd (cc (h))
  load_finished s s' e_entry ps invalid_elf o run h = absurd (cc (h))
  load_finished s s' e_entry ps unknown_reloc o run h = absurd (cc (h))
  load_finished s s' e_entry ps nodyn o run h = absurd (cc (h))
  load_finished s s' e_entry ps nosym o run h = absurd (cc (h))

  -- An ELF file that is loaded has a header that was read and is valid; the segments from the first free
  -- entry on are those of the PT_LOAD headers that the header's table leads to, in order, and as many; and
  -- the entry point is that of the header, where the first segment that it is linked to was loaded, or
  -- NULL where it is linked to none.
  pub load_elf_file-AreLoaded :
      (read_ehdr : Option Ehdr) (read_phdr : ℕ → Phdr) (s s' : ElfState)
      → load_elf_file map alloc_rw read_into read_ehdr read_phdr s ≡ loaded s'
      → (hdr : Ehdr) × (read_ehdr ≡ some hdr)
        × (validate_elf_header hdr ≡ elf_ok)
        × AreLoaded s.num_segments s' (headers hdr.e_phnum 0 (phdr_at hdr read_phdr))
        × IsTranslated s'.num_segments 0 s'.segments hdr.e_entry s'.entry_point
  unfolding load_elf_file
  load_elf_file-AreLoaded none read_phdr s s' h = absurd (cc (h))
  load_elf_file-AreLoaded (some hdr) read_phdr s s' h =
      let phdrs = headers hdr.e_phnum 0 (phdr_at hdr read_phdr) in
      let (valid, segments, entry) =
        load_finished s s' hdr.e_entry phdrs (validate_elf_header hdr)
          (load_segments map alloc_rw read_into phdrs s) refl h in
      (hdr, refl, valid, segments, entry)
