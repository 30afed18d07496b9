-- ===== src/Server/Startup/Summary.antt =====
-- cmd/server/server.go, printStartupSummary: the lines that the start prints.
use mathlib.Core.Path.{subst}
use mathlib.Core.List.{append-nil, append_assoc}
use lp.Base.{
  String, List, [], ◌∷◌, ◌++◌, map, length, ◌==◌, ◌≡◌, refl, sym, ◌∙◌, ap, ◌⊎◌, inl, inr, ◌↔◌, Elem,
  Elem-append_left, Elem-append_right, Elem-append_cases, Elem-keep_if, keep_if-Elem, Option-cases,
  some, str_eq, eq_iff, eq_refl, if◌then◌else◌,
}
use lp.Base.Dict.{Dict, IsOrder}
use lp.Base.Dict
use lp.Logging.{Entry, Ledger, text, number, level_error, grouped, group_of, by_category}
use lp.Logging.Queries.{get-grouped}
use lp.Pipeline.Definition.{PipelineDef}
use lp.Pipeline.Store.{pipelines}
use lp.Server.State.{Server, Line, prefix_info, prefix_fail, print}
use lp.Server.Loops.{print_pipelines, print_entries, print_groups, print_startup_summary}

abbrev pub pipeline_line : PipelineDef → Line
pipeline_line p = record {
  prefix = prefix_info;
  format = "pipeline loaded: %s (id=%s, steps=%d)";
  args = text p.name ∷ text p.id ∷ number (length p.steps) ∷ [];
}

abbrev pub entry_line : String → Entry → Line
entry_line cat e = record {
  prefix = if e.level == level_error then prefix_fail else prefix_info;
  format = "[%s] %s: %s";
  args = text cat ∷ text e.source ∷ text e.message ∷ [];
}

unfoldable pub group_lines : List (String × List Entry) → List Line
group_lines [] = []
group_lines ((cat, entries) ∷ groups) = map (entry_line cat) entries ++ group_lines groups

abbrev pub with_lines : List Line → Server → Server
with_lines lines s = record s { output = s.output ++ lines }

print_pipelines_lem :
    (ps : List PipelineDef) (s : Server)
    → print_pipelines ps s ≡ with_lines (map pipeline_line ps) s
unfolding print_pipelines print
print_pipelines_lem [] s = ap (λ out. record s { output = out }) (sym (append-nil s.output))
print_pipelines_lem (p ∷ ps) s =
    print_pipelines_lem ps _
    ∙ ap (λ out. record s { output = out })
        (append_assoc s.output (pipeline_line p ∷ []) (map pipeline_line ps))

print_entries_lem :
    (cat : String) (es : List Entry) (s : Server)
    → print_entries cat es s ≡ with_lines (map (entry_line cat) es) s
unfolding print_entries print
print_entries_lem cat [] s = ap (λ out. record s { output = out }) (sym (append-nil s.output))
print_entries_lem cat (e ∷ es) s =
    print_entries_lem cat es _
    ∙ ap (λ out. record s { output = out })
        (append_assoc s.output (entry_line cat e ∷ []) (map (entry_line cat) es))

print_groups_lem :
    (groups : List (String × List Entry)) (s : Server)
    → print_groups groups s ≡ with_lines (group_lines groups) s
unfolding print_groups group_lines
print_groups_lem [] s = ap (λ out. record s { output = out }) (sym (append-nil s.output))
print_groups_lem ((cat, es) ∷ groups) s =
    print_groups_lem groups _
    ∙ ap (with_lines (group_lines groups)) (print_entries_lem cat es s)
    ∙ ap (λ out. record s { output = out })
        (append_assoc s.output (map (entry_line cat) es) (group_lines groups))

pub print_startup_summary_lem :
    (ps : List PipelineDef) (groups : List (String × List Entry)) (s : Server)
    → print_startup_summary ps groups s ≡ with_lines (map pipeline_line ps ++ group_lines groups) s
unfolding print_startup_summary
print_startup_summary_lem ps groups s =
    print_groups_lem groups _
    ∙ ap (with_lines (group_lines groups)) (print_pipelines_lem ps s)
    ∙ ap (λ out. record s { output = out })
        (append_assoc s.output (map pipeline_line ps) (group_lines groups))

Elem-map : {A B : Type 0} (f : A → B) (a : A) (xs : List A) → Elem a xs → Elem (f a) (map f xs)
Elem-map f a [] h = absurd h
Elem-map f a (x ∷ xs) (inl e) = inl (ap f e)
Elem-map f a (x ∷ xs) (inr h) = inr (Elem-map f a xs h)

map-Elem :
    {A B : Type 0} (f : A → B) (b : B) (xs : List A)
    → Elem b (map f xs)
    → (a : A) × (b ≡ f a) × Elem a xs
map-Elem f b [] h = absurd h
map-Elem f b (x ∷ xs) (inl e) = (x, e, inl refl)
map-Elem f b (x ∷ xs) (inr h) = let (a, e, m) = map-Elem f b xs h in (a, e, inr m)

-- A line of the groups is one of an entry of a group, and each entry of a group has one.
group_lines-Elem :
    (groups : List (String × List Entry)) (line : Line)
    → Elem line (group_lines groups)
    → (cat : String) × (es : List Entry) × (e : Entry) × Elem (cat, es) groups
      × Elem e es
      × (line ≡ entry_line cat e)
unfolding group_lines
group_lines-Elem [] line h = absurd h
group_lines-Elem ((cat, es) ∷ groups) line h =
    elim (Elem-append_cases line (map (entry_line cat) es) (group_lines groups) h) [
      | inl here ↦
          let (e, same, m) = map-Elem (entry_line cat) line es here in
          (cat, es, e, inl refl, m, same)
      | inr later ↦
          let (c, fs, e, g, m, same) = group_lines-Elem groups line later in
          (c, fs, e, inr g, m, same)
    ]

Elem-group_lines :
    (groups : List (String × List Entry)) (cat : String) (es : List Entry) (e : Entry)
    → Elem (cat, es) groups
    → Elem e es
    → Elem (entry_line cat e) (group_lines groups)
unfolding group_lines
Elem-group_lines [] cat es e g m = absurd g
Elem-group_lines ((c, fs) ∷ groups) cat es e (inl same) m =
    Elem-append_left (entry_line cat e) (map (entry_line c) fs) (group_lines groups) (
      subst (λ k. Elem (entry_line cat e) (map (entry_line k) fs))
        (ap (λ (g : String × List Entry). g.0) same)
        (Elem-map (entry_line cat) e fs
          (subst (Elem e) (ap (λ (g : String × List Entry). g.1) same) m)))
Elem-group_lines ((c, fs) ∷ groups) cat es e (inr g) m =
    Elem-append_right (entry_line cat e) (map (entry_line c) fs) (group_lines groups)
      (Elem-group_lines groups cat es e g m)

-- Visited in any order, the groups hold the entries of the ledger, each under its category.
grouped_entries :
    (l : Ledger) (groups : List (String × List Entry)) (cat : String) (es : List Entry) (e : Entry)
    → IsOrder groups (grouped l)
    → Elem (cat, es) groups
    → Elem e es
    → (e.category ≡ cat) × Elem e l.entries
unfolding by_category
grouped_entries l groups cat es e is_order g m =
    let same : es ≡ by_category cat l =
      ap group_of (sym (is_order.sound cat es g)) ∙ get-grouped l cat in
    let (kept, listed) =
      keep_if-Elem (λ (x : Entry). str_eq x.category cat) e l.entries (subst (Elem e) same m) in
    ((eq_iff e.category cat).0 kept, listed)

entries_grouped :
    (l : Ledger) (groups : List (String × List Entry)) (e : Entry)
    → IsOrder groups (grouped l)
    → Elem e l.entries
    → (es : List Entry) × Elem (e.category, es) groups × Elem e es
unfolding by_category
entries_grouped l groups e is_order m =
    let kept : Elem e (by_category e.category l) =
      Elem-keep_if (λ (x : Entry). str_eq x.category e.category) e l.entries (eq_refl e.category)
        m in
    elim (Option-cases (Dict.get (grouped l) e.category)) [
      | inl missing ↦
          absurd (subst (Elem e) (sym (get-grouped l e.category) ∙ ap group_of missing) kept)
      | inr (es, there) ↦ (
        es,
        is_order.complete e.category es there,
        subst (Elem e) (sym (get-grouped l e.category) ∙ ap group_of there) kept,
      )
    ]

-- The lines of the entries, category by category
unfoldable pub category_lines : Ledger → List String → List Line
category_lines l [] = []
category_lines l (cat ∷ cats) = map (entry_line cat) (by_category cat l) ++ category_lines l cats

abbrev pub categories : List (String × List Entry) → List String
categories groups = map (λ (g : String × List Entry). g.0) groups

group_lines_by :
    (l : Ledger) (groups : List (String × List Entry))
    → ((cat : String) (es : List Entry) → Elem (cat, es) groups → es ≡ by_category cat l)
    → group_lines groups ≡ category_lines l (categories groups)
unfolding group_lines category_lines
group_lines_by l [] same = refl
group_lines_by l ((cat, es) ∷ groups) same =
    ap (λ (x : List Entry). map (entry_line cat) x ++ group_lines groups) (same cat es (inl refl))
    ∙ ap (λ rest. map (entry_line cat) (by_category cat l) ++ rest)
        (group_lines_by l groups (λ c fs m. same c fs (inr m)))

-- What a line of the summary tells: a stored pipeline, or an entry of the ledger
abbrev pub Tells : Dict PipelineDef → Ledger → Line → Type 0
Tells stored l line =
    ((id : String) × (p : PipelineDef) × (Dict.get stored id ≡ some p) × (line ≡ pipeline_line p))
    ⊎ ((e : Entry) × Elem e l.entries × (line ≡ entry_line e.category e))

-- Visiting the stored pipelines and the groups of the ledger in any order, printStartupSummary prints
-- the line of each pipeline visited, and behind these, category by category, the line of each
-- entry that ByCategory finds; so each stored pipeline and each entry has its line, and no other line is
-- printed. Nothing else changes.
pub summary_lem :
    (order : List (String × PipelineDef)) (groups : List (String × List Entry)) (s : Server)
    → IsOrder order s.tracked.store.pipelines
    → IsOrder groups (grouped s.ledger)
    → let lines =
        map pipeline_line (pipelines order) ++ category_lines s.ledger (categories groups) in
      (print_startup_summary (pipelines order) groups s ≡ record s { output = s.output ++ lines })
      × ((line : Line) → Elem line lines ↔ Tells s.tracked.store.pipelines s.ledger line)
unfolding pipelines
summary_lem order groups s stored_order is_order =
    let ps : List PipelineDef = pipelines order in
    let same : group_lines groups ≡ category_lines s.ledger (categories groups) =
      group_lines_by s.ledger groups
        (λ cat es g. ap group_of (sym (is_order.sound cat es g)) ∙ get-grouped s.ledger cat) in
    subst
      (λ (back : List Line).
        (print_startup_summary ps groups s
          ≡ record s { output = s.output ++ (map pipeline_line ps ++ back) })
        × ((line : Line)
            → Elem line (map pipeline_line ps ++ back)
              ↔ Tells s.tracked.store.pipelines s.ledger line))
      same
      (
        print_startup_summary_lem ps groups s,
        λ line. (
          λ h. elim (Elem-append_cases line (map pipeline_line ps) (group_lines groups) h) [
            | inl here ↦
                let (p, line_of, m) = map-Elem pipeline_line line ps here in
                let ((id, q), q_of, listed) =
                  map-Elem (λ (x : String × PipelineDef). x.1) p order m in
                inl (
                  id,
                  p,
                  stored_order.sound id p
                      (subst (λ (x : PipelineDef). Elem (id, x) order) (sym q_of) listed),
                  line_of,
                )
            | inr later ↦
                let (cat, es, e, g, m, line_of) = group_lines-Elem groups line later in
                let (category, listed) = grouped_entries s.ledger groups cat es e is_order g m in
                inr (e, listed, line_of ∙ ap (λ c. entry_line c e) (sym category))
          ],
          λ t. elim t [
            | inl (id, p, stored, line_of) ↦
                subst (λ x. Elem x (map pipeline_line ps ++ group_lines groups)) (sym line_of)
                  (Elem-append_left (pipeline_line p) (map pipeline_line ps) (group_lines groups) (
                    Elem-map pipeline_line p ps (
                      Elem-map (λ (x : String × PipelineDef). x.1) (id, p) order
                        (stored_order.complete id p stored))))
            | inr (e, m, line_of) ↦
                let (es, g, held) = entries_grouped s.ledger groups e is_order m in
                subst (λ x. Elem x (map pipeline_line ps ++ group_lines groups)) (sym line_of)
                  (Elem-append_right (entry_line e.category e) (map pipeline_line ps)
                    (group_lines groups) (Elem-group_lines groups e.category es e g held))
          ],
        ),
      )
