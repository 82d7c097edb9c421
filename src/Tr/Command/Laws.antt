-- ===== src/Tr/Command/Laws.antt =====
-- What `tr` writes, in each of its modes.
use mimixbox.Prelude.{
  ℕ, ◌≡◌, ◌≢◌, refl, ◌∙◌, ap, true, false, List, [], ◌∷◌, none, arith, Bytes, Runes, ok,
}
use mimixbox.Tr.Sets.{expand_set}
use mimixbox.Tr.Processor.{
  Options, Cell, decode_cells, membership, translate_cell, found_or_same, new_processor, last_or,
  lookup, fill_trans_map, stream_transform,
}
use mimixbox.Tr.Processor.Stream.{contents, stream_transform-contents}
use mimixbox.Tr.Processor.Reference.{
  write_cells, transformed, process-transformed, kept, squeezed, target, lookup-fill_trans_map,
}
use mimixbox.Tr.Command.{run, truncated}

module _ (set1 set2 : Runes) (opts : Options) (reads : List Bytes) (last : Bytes) where
  -- However the input is read, tr writes the cells of the whole input, transformed as the options
  -- ask: filtered by SET1, mapped from SET1 to SET2, squeezed, or two of these in that order.
  pub stream_transform-transformed :
      stream_transform set1 set2 opts reads last
      ≡ write_cells []
          (transformed (new_processor set1 set2 opts) (decode_cells 0 (contents reads last)))
  stream_transform-transformed =
      stream_transform-contents set1 set2 opts reads last
      ∙ process-transformed (new_processor set1 set2 opts) (decode_cells 0 (contents reads last))

-- With two operands that are valid SETs the command succeeds, and writes the input transformed by
-- SET1, truncated if -t asks for it, and SET2.
pub run-transformed :
    (opts : Options) (spec1 spec2 : Bytes) (set1 set2 : Runes) (reads : List Bytes) (last : Bytes)
    → expand_set spec1 ≡ ok set1
    → expand_set spec2 ≡ ok set2
    → run opts (spec1 ∷ spec2 ∷ []) reads last
      ≡ ok (
          write_cells [] (
            transformed
              (new_processor (truncated opts set1 set2) set2 opts)
              (decode_cells 0 (contents reads last))))
unfolding run
run-transformed opts spec1 spec2 set1 set2 reads last e1 e2 =
    rw (e1, e2) (ap ok (stream_transform-transformed _ set2 opts reads last))

squeeze_mode :
    (set1 : Runes) (opts : Options) (cells : List Cell)
    → opts.delete ≡ false
    → opts.squeeze ≡ true
    → transformed (new_processor set1 [] opts) cells
      ≡ squeezed (membership set1 opts.complement) none cells
unfolding transformed new_processor
squeeze_mode set1 opts cells d q = ground arith

delete_mode :
    (set1 set2 : Runes) (opts : Options) (cells : List Cell)
    → opts.delete ≡ true
    → opts.squeeze ≡ false
    → transformed (new_processor set1 set2 opts) cells
      ≡ kept (membership set1 opts.complement) cells
unfolding transformed new_processor
delete_mode set1 set2 opts cells d q = ground arith

-- With -s and one SET, the first cell of each run of equal cells that SET selects is written.
pub squeeze_only-squeezed :
    (set1 : Runes) (opts : Options) (reads : List Bytes) (last : Bytes)
    → opts.delete ≡ false
    → opts.squeeze ≡ true
    → stream_transform set1 [] opts reads last
      ≡ write_cells []
          (squeezed (membership set1 opts.complement) none (decode_cells 0 (contents reads last)))
squeeze_only-squeezed set1 opts reads last d q =
    stream_transform-transformed set1 [] opts reads last
    ∙ ap (write_cells []) (squeeze_mode set1 opts (decode_cells 0 (contents reads last)) d q)

-- With -d and without -s, the output is the input without the runes that SET1 selects.
pub delete_only-kept :
    (set1 set2 : Runes) (opts : Options) (reads : List Bytes) (last : Bytes)
    → opts.delete ≡ true
    → opts.squeeze ≡ false
    → stream_transform set1 set2 opts reads last
      ≡ write_cells []
          (kept (membership set1 opts.complement) (decode_cells 0 (contents reads last)))
delete_only-kept set1 set2 opts reads last d q =
    stream_transform-transformed set1 set2 opts reads last
    ∙ ap (write_cells []) (delete_mode set1 set2 opts (decode_cells 0 (contents reads last)) d q)

translate_cell_plain :
    (set1 : Runes) (x : ℕ) (set2 : Runes) (opts : Options) (c : Cell)
    → opts.delete ≡ false
    → opts.complement ≡ false
    → translate_cell (new_processor set1 (x ∷ set2) opts) c
      ≡ found_or_same c (lookup (fill_trans_map set1 (x ∷ set2) (last_or x set2) []) c.r)
unfolding translate_cell new_processor
translate_cell_plain set1 x set2 opts c d k = ground arith

-- The translation of one cell without -d and -c, with a SET2 that is not empty: the rune at the
-- last place of SET1 that holds it goes to the rune at that place of SET2, or to the last of SET2
-- if that is shorter, and any other rune stays.
pub translate_cell-target :
    (set1 set2 : Runes) (opts : Options) (c : Cell)
    → opts.delete ≡ false
    → opts.complement ≡ false
    → set2 ≢ []
    → translate_cell (new_processor set1 set2 opts) c
      ≡ found_or_same c (target set1 set2 (last_or 0 set2) c.r none)
unfolding last_or lookup
translate_cell-target set1 [] opts c d k h = absurd (h refl)
translate_cell-target set1 (x ∷ set2) opts c d k h =
    translate_cell_plain set1 x set2 opts c d k
    ∙ ap (found_or_same c) (lookup-fill_trans_map set1 (x ∷ set2) (last_or x set2) [] c.r)
