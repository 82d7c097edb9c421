-- ===== src/Patch/Parse/Written.antt =====
-- `parseUnified` of internal/applets/editors/patch/parse.go on the lines that `writeUnified` of
-- internal/applets/editors/diff/format.go writes.
use mimixbox.Prelude.{
  ℕ, suc, ◌+◌, ◌≤◌, ◌≡◌, refl, ◌∙◌, ap, Bool, true, false, List, [], ◌∷◌, ◌++◌, append_assoc,
  append-nil, arith, Bytes, codes, All, ok, length,
}
use mimixbox.Golang.Int.{pos, max_int}
use mimixbox.Golang.Strings.{has_prefix}
use mimixbox.Diff.Lines.{Op, OpKind, op_equal, op_delete, op_insert}
use mimixbox.Diff.Unified.{
  hunk_header, old_start, old_length, new_start, new_length, op_line, op_lines, group_lines,
}
use mimixbox.Patch.Hunks.{Hunk, FilePatch}
use mimixbox.Patch.Apply.Steps.{hunk_of, hunks_of}
use mimixbox.Patch.Parse.{
  body_text, body_line, is_nil, parse_body, add_hunk, parse_hunk_header, parse_lines,
}
use mimixbox.Patch.Parse.Ranges.{parse_hunk_header-hunk_header}

-- The numbers of the group's header are machine integers.
pub record Fits (g : List Op) : Type 0 where
  pub fits_old_start : old_start g ≤ max_int
  pub fits_old_length : old_length g ≤ max_int
  pub fits_new_start : new_start g ≤ max_int
  pub fits_new_length : new_length g ≤ max_int

-- A line that does not look like the header of a file.
abbrev pub IsNoHeader : Bytes → Type 0
IsNoHeader l = has_prefix l (codes "--- ") ≡ false

module _ (a b : List Bytes) where
  body_line-op_line :
      (is_last : Bool) (k : OpKind) (i j : ℕ)
      → IsNoHeader (op_line a b record { kind = k; ai = i; bi = j })
      → body_line is_last (op_line a b record { kind = k; ai = i; bi = j })
        ≡ body_text (op_line a b record { kind = k; ai = i; bi = j })
  unfolding body_line op_line has_prefix
  body_line-op_line true op_equal i j h = refl
  body_line-op_line false op_equal i j h = refl
  body_line-op_line true op_delete i j h = rw h refl
  body_line-op_line false op_delete i j h = rw h refl
  body_line-op_line true op_insert i j h = refl
  body_line-op_line false op_insert i j h = refl

  parse_body_text :
      (l : Bytes) (rest lines : List Bytes) (n : ℕ)
      → body_line (is_nil rest) l ≡ body_text l
      → parse_body rest ≡ (lines, n)
      → parse_body (l ∷ rest) ≡ (l ∷ lines, suc n)
  unfolding parse_body
  parse_body_text l rest lines n h k = rw (h, k, parse_body) refl

  -- The body of a group ends where the lines behind it do not belong to a body.
  parse_body-op_lines :
      (g : List Op) (rest : List Bytes)
      → All IsNoHeader (op_lines a b g)
      → parse_body rest ≡ ([], 0)
      → parse_body (op_lines a b g ++ rest) ≡ (op_lines a b g, length (op_lines a b g))
  unfolding op_lines
  parse_body-op_lines [] rest h e = e
  parse_body-op_lines (o ∷ g) rest h e =
      parse_body_text (op_line a b o) (op_lines a b g ++ rest) (op_lines a b g)
        (length (op_lines a b g))
        (body_line-op_line (is_nil (op_lines a b g ++ rest)) o.kind o.ai o.bi h.0)
        (parse_body-op_lines g rest h.1 e)

  parse_body-header :
      (g : List Op) (rest : List Bytes) → parse_body (hunk_header a b g ∷ rest) ≡ ([], 0)
  unfolding parse_body body_line hunk_header has_prefix
  parse_body-header g [] = refl
  parse_body-header g (_ ∷ rest) = refl

  parse_body-group_lines :
      (groups : List (List Op)) → parse_body (group_lines a b groups ++ [] ∷ []) ≡ ([], 0)
  unfolding group_lines
  parse_body-group_lines [] = unfold parse_body body_line in refl
  parse_body-group_lines (g ∷ groups) =
      parse_body-header g ((op_lines a b g ++ group_lines a b groups) ++ [] ∷ [])

  parse_lines_skip :
      (lines rest : List Bytes) (i : ℕ) (patches : List FilePatch)
      → parse_lines i (length lines) patches (lines ++ rest)
        ≡ parse_lines (i + length lines) 0 patches rest
  unfolding parse_lines
  parse_lines_skip [] rest i patches = let e : i + 0 ≡ i = omega arith in rw e refl
  parse_lines_skip (l ∷ lines) rest i patches =
      parse_lines_skip lines rest (suc i) patches
      ∙ ap (λ n. parse_lines n 0 patches rest) (omega arith)

  parse_lines_hunk :
      (i : ℕ) (p : FilePatch) (line : Bytes) (lines body : List Bytes) (h : Hunk) (n : ℕ)
      → has_prefix line (codes "--- ") ≡ false
      → has_prefix line (codes "@@") ≡ true
      → parse_hunk_header line ≡ ok h
      → parse_body lines ≡ (body, n)
      → parse_lines i 0 (p ∷ []) (line ∷ lines)
        ≡ parse_lines
            (suc i)
            n
            (record p { hunks = p.hunks ++ (record h { lines = body }) ∷ [] } ∷ [])
            lines
  unfolding parse_lines add_hunk
  parse_lines_hunk i p line lines body h n e1 e2 e3 e4 = rw (e1, e2, e3, e4, parse_lines) refl

  hunk_header-IsNoHeader : (g : List Op) → IsNoHeader (hunk_header a b g)
  unfolding hunk_header has_prefix
  hunk_header-IsNoHeader g = refl

  hunk_header_mark : (g : List Op) → has_prefix (hunk_header a b g) (codes "@@") ≡ true
  unfolding hunk_header has_prefix
  hunk_header_mark g = refl

  -- The groups' lines are read back as their hunks.
  pub parse_lines-group_lines :
      (groups : List (List Op)) (i : ℕ) (p : FilePatch)
      → All Fits groups
      → All (λ g. All IsNoHeader (op_lines a b g)) groups
      → parse_lines i 0 (p ∷ []) (group_lines a b groups ++ [] ∷ [])
        ≡ ok (record p { hunks = p.hunks ++ hunks_of a b groups } ∷ [])
  unfolding group_lines hunks_of
  parse_lines-group_lines [] i p f h = unfold parse_lines has_prefix in rw (append-nil p.hunks) refl
  parse_lines-group_lines (g ∷ groups) i p f h =
      let body = op_lines a b g in
      let behind = group_lines a b groups ++ [] ∷ [] in
      let q : FilePatch = record p { hunks = p.hunks ++ hunk_of a b g ∷ [] } in
      parse_lines_hunk i p (hunk_header a b g) ((body ++ group_lines a b groups) ++ [] ∷ []) body
        record {
          old_start = pos (old_start g);
          old_len = pos (old_length g);
          new_start = pos (new_start g);
          new_len = pos (new_length g);
          lines = [];
        }
        (length body) (hunk_header-IsNoHeader g) (hunk_header_mark g)
        (parse_hunk_header-hunk_header a b g f.0.fits_old_start f.0.fits_old_length
          f.0.fits_new_start f.0.fits_new_length)
        (ap parse_body (append_assoc body (group_lines a b groups) ([] ∷ []))
          ∙ parse_body-op_lines g behind h.0 (parse_body-group_lines groups))
      ∙ ap (parse_lines (suc i) (length body) (q ∷ []))
          (append_assoc body (group_lines a b groups) ([] ∷ []))
      ∙ parse_lines_skip body behind (suc i) (q ∷ [])
      ∙ parse_lines-group_lines groups (suc i + length body) q f.1 h.1
      ∙ ap (λ r. ok (record p { hunks = r } ∷ []))
          (append_assoc p.hunks (hunk_of a b g ∷ []) (hunks_of a b groups))
