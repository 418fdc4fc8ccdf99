-- ===== src/Inspector/Summary/Bounds.antt =====
-- How long the summary of an inventory's storage items can get.
use Prim.Native.String.{count}
use endstone_blockdata_api.Base.{
  ℕ, zero, suc, ◌≤◌, ◌<◌, ◌≡◌, refl, ap, ◌⊎◌, inl, inr, arith, String, Bool, true, false, Option,
  none, some, List, [], ◌∷◌, leb→le, ◌==◌, if◌then◌else◌, Bool-cases, string_eq, nat_eq,
}
use endstone_blockdata_api.Base.Lists.{length, length-append, All, All-append}
use endstone_blockdata_api.Base.Texts.{count-take_chars, count_append, on_one_line, take_chars}
use endstone_blockdata_api.Nbt.{Value, ItemNbt, as_dict}
use endstone_blockdata_api.Inspector.Python.{Python, get}
use endstone_blockdata_api.Inspector.Reading.{bounded_item_text, is_storage_item}
use endstone_blockdata_api.Inspector.Summary.{
  StorageContents, unavailable, invalid_tag, invalid, without_entries, available, Summary, is_full,
  emit, show_entry, show_entries, show_hidden, walk_contents, show_state, walk_item, walk,
  show_parent, show_parents, set_last, truncation_marker, finish_summary,
  storage_item_summary_lines,
}

pub count-bounded_item_text : (s : String) → count (bounded_item_text s) ≤ 160
unfolding bounded_item_text
count-bounded_item_text s = ground (
  arith,
  leb→le (count (on_one_line s)) 160,
  count_append (take_chars 144 (on_one_line s)) "... [truncated]",
  count-take_chars 144 (on_one_line s),
)

-- A summary has at most 32 lines, of at most 160 characters each.
abbrev Short : String → Type 0
Short line = count line ≤ 160

abbrev Bounded : Summary → Type 0
Bounded summary = (length summary.lines ≤ 32) × All Short summary.lines

keep_if :
    (P : Summary → Type 0) (test : Bool) (s t : Summary) → P s → P t → P (if test then s else t)
keep_if P true s t ps pt = ps
keep_if P false s t ps pt = pt

room-left : (s : Summary) → is_full s ≡ false → length s.lines < 32
room-left s h = ground arith

emit-Bounded : (m : String) (s : Summary) → Bounded s → Bounded (emit m s).1
unfolding emit
emit-Bounded m s (few, short) = elim (Bool-cases (is_full s)) [
  | inl full ↦ rw full (few, short)
  | inr room ↦ rw room (
    ground (arith, room-left s room, length-append s.lines (bounded_item_text m ∷ [])),
    All-append Short s.lines (bounded_item_text m ∷ []) short (count-bounded_item_text m, tt),
  )
]

-- Any walk of nested items that keeps the bounds.
abbrev Keeps : (Value → String → String → Summary → Summary) → Type 0
Keeps nested =
    (v : Value) (indent context : String) (s : Summary)
    → Bounded s
    → Bounded (nested v indent context s)

module _ (python : Python) where
  module _ (nested : Value → String → String → Summary → Summary) (keeps : Keeps nested)
      (indent : String) where
    show_entry-Bounded :
        (index : ℕ) (entry : Value) (mapping : Option ItemNbt) (s : Summary)
        → Bounded s
        → Bounded (show_entry python nested indent index entry mapping s)
    unfolding show_entry
    show_entry-Bounded index entry none s b = emit-Bounded _ s b
    show_entry-Bounded index entry (some mapping) s b =
        keep_if Bounded (is_storage_item python entry) _ _ (keeps entry _ _ _ (emit-Bounded _ s b))
          (emit-Bounded _ s b)

    show_entries-Bounded :
        (index : ℕ) (entries : List Value) (s : Summary)
        → Bounded s
        → Bounded (show_entries python nested indent index entries s)
    unfolding show_entries
    show_entries-Bounded index [] s b = b
    show_entries-Bounded index (entry ∷ entries) s b = keep_if Bounded (is_full s) _ _ b (
        show_entries-Bounded (suc index) entries _
          (show_entry-Bounded index entry (as_dict entry) s b))

    show_hidden-Bounded :
        (n : ℕ) (s : Summary) → Bounded s → Bounded (show_hidden python indent n s)
    unfolding show_hidden
    show_hidden-Bounded zero s b = b
    show_hidden-Bounded (suc n) s b = emit-Bounded _ s b

    walk_contents-Bounded :
        (levels : ℕ) (heading : String) (contents : List Value) (s : Summary)
        → Bounded s
        → Bounded (walk_contents python levels nested indent heading contents s)
    unfolding walk_contents
    walk_contents-Bounded levels heading contents s b =
        let counted = emit-Bounded _ s b in
        keep_if Bounded _ _ _
          (keep_if Bounded (levels == 0) _ _ (emit-Bounded _ _ counted)
            (show_hidden-Bounded _ _ (show_entries-Bounded 0 _ _ counted)))
          counted

    show_state-Bounded :
        (levels : ℕ) (heading : String) (state : StorageContents) (s : Summary)
        → Bounded s
        → Bounded (show_state python levels nested indent heading state s)
    unfolding show_state
    show_state-Bounded levels heading unavailable s b = emit-Bounded _ s b
    show_state-Bounded levels heading invalid_tag s b = emit-Bounded _ s b
    show_state-Bounded levels heading invalid s b = emit-Bounded _ s b
    show_state-Bounded levels heading without_entries s b = emit-Bounded _ s b
    show_state-Bounded levels heading (available contents) s b =
        walk_contents-Bounded levels heading contents s b

  walk-Bounded : (levels : ℕ) → Keeps (walk python levels)
  unfolding walk walk_item
  walk-Bounded zero item indent context s b =
      keep_if Bounded (is_storage_item python item) _ _
        (show_state-Bounded (λ entry deeper within t. t) (λ v i c t bt. bt) indent 0 _ _ s b) b
  walk-Bounded (suc levels) item indent context s b =
      keep_if Bounded (is_storage_item python item) _ _
        (show_state-Bounded (walk python levels) (walk-Bounded levels) indent (suc levels) _ _ s b)
        b

  show_parents-Bounded :
      (parents : List ItemNbt) (s : Summary) → Bounded s → Bounded (show_parents python parents s)
  unfolding show_parents show_parent
  show_parents-Bounded [] s b = b
  show_parents-Bounded (parent ∷ parents) s b =
      let shown =
        keep_if Bounded (is_storage_item python (get "item" parent)) _ _ (walk-Bounded 4 _ _ _ s b)
          b in
      keep_if Bounded _ _ _ shown (show_parents-Bounded parents _ shown)

  -- The marker of a summary that was cut is not bounded itself.
  abbrev pub IsLine : String → Type 0
  IsLine line = (count line ≤ 160) ⊎ (line ≡ truncation_marker python)

  weaken : (lines : List String) → All Short lines → All IsLine lines
  weaken [] all = tt
  weaken (line ∷ lines) (short, all) = (inl short, weaken lines all)

  set_last-lines :
      (lines : List String)
      → All Short lines
      → (length (set_last (truncation_marker python) lines) ≡ length lines)
        × All IsLine (set_last (truncation_marker python) lines)
  unfolding set_last
  set_last-lines [] all = (refl, tt)
  set_last-lines (line ∷ []) all = (refl, (inr refl, tt))
  set_last-lines (line ∷ next ∷ lines) (short, all) =
      let (same, rest) = set_last-lines (next ∷ lines) all in (ap suc same, (inl short, rest))

  WithinLimits : List String → Type 0
  WithinLimits lines = (length lines ≤ 32) × All IsLine lines

  finish_summary-WithinLimits : (s : Summary) → Bounded s → WithinLimits (finish_summary python s)
  unfolding finish_summary WithinLimits
  finish_summary-WithinLimits s (few, short) = elim (Bool-cases s.line_limit_hit) [
    | inl hit ↦ rw hit (elim (Bool-cases (is_full s)) [
      | inl full ↦
          let (same, all) = set_last-lines s.lines short in rw full (ground (arith, same), all)
      | inr room ↦ rw room (
        ground (arith, room-left s room, length-append s.lines (truncation_marker python ∷ [])),
        All-append IsLine s.lines (truncation_marker python ∷ []) (weaken s.lines short)
            (inr refl, tt),
      )
    ])
    | inr missed ↦ rw missed (few, weaken s.lines short)
  ]

  -- The summary of an inventory's storage items has at most 32 lines, however many items there are
  -- and however deep they are nested, and each of its lines has at most 160 characters or is the
  -- marker that the summary was cut.
  pub storage_item_summary_lines-bounded :
      (inventory : List ItemNbt)
      → (length (storage_item_summary_lines python inventory) ≤ 32)
        × All IsLine (storage_item_summary_lines python inventory)
  unfolding storage_item_summary_lines WithinLimits
  storage_item_summary_lines-bounded inventory =
      finish_summary-WithinLimits _ (show_parents-Bounded inventory _ (ground arith, tt))
