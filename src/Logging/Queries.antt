-- ===== src/Logging/Queries.antt =====
-- The reading methods of the ledger: filters and grouping agree, and appending extends them.
use lp.Base.{
  ℕ, String, ◌==◌, Bool-cases, inl, inr, ◌≡◌, refl, ◌∙◌, List, [], ◌∷◌, ◌++◌, arith, leb, str_eq,
  eq_iff, keep_if, keep_if-append, if◌then◌else◌,
}
use mathlib.Core.List.{append-nil, append_assoc}
use lp.Base.Dict.{Dict, dict_laws, get-put, get-empty}
use lp.Base.Dict
use lp.Logging.{
  Ledger, Entry, Level, Fields, group_of, group_entries, grouped, by_category, by_level, by_source,
  log,
}

-- What is in the groups after the loop: what was there, and the entries of the category.
group_entries_lem :
    (es : List Entry) (groups : Dict (List Entry)) (cat : String)
    → group_of (Dict.get (group_entries es groups) cat)
      ≡ group_of (Dict.get groups cat) ++ keep_if (λ e. str_eq e.category cat) es
unfolding group_entries keep_if
group_entries_lem [] groups cat = rw append-nil
group_entries_lem (e ∷ es) groups cat = ground (
  arith,
  group_entries_lem es (Dict.put groups e.category (old ++ e ∷ [])) cat,
  get-put groups e.category cat (old ++ e ∷ []),
  eq_iff e.category cat,
  append_assoc old (e ∷ []) (keep_if (λ x. str_eq x.category cat) es),
)
  where
    old : List Entry
    old = group_of (Dict.get groups e.category)

-- The group that Grouped holds for a category, the empty one if it holds none, is ByCategory's
-- answer, in the order of insertion.
pub get-grouped :
    (l : Ledger) (cat : String) → group_of (Dict.get (grouped l) cat) ≡ by_category cat l
unfolding grouped by_category
get-grouped l cat = group_entries_lem l.entries Dict.empty cat ∙ rw (get-empty cat)

module _ (now : ℕ) (level : Level) (category source message : String) (fields : Fields)
    (l : Ledger) where
  abbrev logged : Entry
  logged = record {
    time = now;
    level = level;
    category = category;
    source = source;
    message = message;
    fields = fields;
  }

  pub entries-log :
      (log now level category source message fields l).entries ≡ l.entries ++ logged ∷ []
  unfolding log
  entries-log = elim (Bool-cases (now == 0)) [ inl e ↦ rw e refl | inr e ↦ rw e refl ]

  -- Log adds one entry at the end, which each filter shows exactly if it asks for it: ByCategory for
  -- its category, ByLevel for its level or a lower one, BySource for its source. What the filters
  -- showed before stays in front.
  pub log_queries :
      (cat : String) (min : Level) (src : String)
      → (by_category cat (log now level category source message fields l)
          ≡ by_category cat l ++ (if str_eq category cat then logged ∷ [] else []))
        × (by_level min (log now level category source message fields l)
            ≡ by_level min l ++ (if leb min level then logged ∷ [] else []))
        × (by_source src (log now level category source message fields l)
            ≡ by_source src l ++ (if str_eq source src then logged ∷ [] else []))
  unfolding by_category by_level by_source keep_if
  log_queries cat min src = (
    rw entries-log (keep_if-append _ l.entries (logged ∷ [])),
    rw entries-log (keep_if-append _ l.entries (logged ∷ [])),
    rw entries-log (keep_if-append _ l.entries (logged ∷ [])),
  )
