-- ===== src/Admin/Laws.antt =====
-- What a page of log entries shows.
use mathlib.Core.List.{map-append}
use routstr_core.Prelude.{
  ◌≡◌, refl, sym, ◌∙◌, ap, subst, ℕ, length, true, Option, none, some, List, [], ◌∷◌, ◌++◌, map,
  String, get_or, str_append, ok,
}
use routstr_core.Settings.Service.{Service}
use routstr_core.Settings.Admin.{is_admin_authenticated}
use routstr_core.Logging.{LogFile}
use routstr_core.Admin.{
  LogLine, Fields, field, join, log_entries, extra_fields, extra_row, format_entry, logs_page,
  view_logs, formatted, extra_part, or_no_logs, raw_entry, page_of, above,
}

-- what a text stands in, as it is
abbrev pub Contains : String → String → Type 0
Contains t page =
    (before : String) × (after : String) × (page ≡ str_append before (str_append t after))

str_append_assoc : (a b c : String) → str_append (str_append a b) c ≡ str_append a (str_append b c)
str_append_assoc String.[] b c = refl
str_append_assoc (String.◌∷◌ x a) b c = ap (String.◌∷◌ x) (str_append_assoc a b c)

Contains-left : (t a page : String) → Contains t page → Contains t (str_append a page)
Contains-left t a page (before, after, e) = (
  str_append a before,
  after,
  ap (str_append a) e ∙ sym (str_append_assoc a before (str_append t after)),
)

Contains-right : (t page b : String) → Contains t page → Contains t (str_append page b)
Contains-right t page b (before, after, e) = (
  before,
  str_append after b,
  ap (λ p. str_append p b) e
      ∙ str_append_assoc before (str_append t after) b
      ∙ ap (str_append before) (str_append_assoc t after b),
)

str_append_empty : (t : String) → str_append t "" ≡ t
str_append_empty String.[] = refl
str_append_empty (String.◌∷◌ c t) = ap (String.◌∷◌ c) (str_append_empty t)

Contains-join :
    (t u : String) (before after : List String)
    → Contains t u
    → Contains t (join (before ++ (u ∷ after)))
Contains-join t u [] after h = Contains-right t u (join after) h
Contains-join t u (x ∷ before) after h =
    Contains-left t x (join (before ++ (u ∷ after))) (Contains-join t u before after h)

extra_row-value : (k v : String) → Contains v (extra_row (k, v))
extra_row-value k v =
    Contains-join v v ("<div class=\"log-field\"><strong>" ∷ k ∷ ":</strong> " ∷ []) ("</div>" ∷ [])
      ("", "", sym (str_append_empty v))

extra_part-value :
    (k v : String) (before after : Fields)
    → Contains v (extra_part (map extra_row (before ++ ((k, v) ∷ after))))
extra_part-value k v [] after =
    Contains-join v (join (map extra_row ((k, v) ∷ after))) ("<div class=\"log-extra\">" ∷ [])
      ("</div>" ∷ [])
      (Contains-join v (extra_row (k, v)) [] (map extra_row after) (extra_row-value k v))
extra_part-value k v (b ∷ before) after =
    Contains-join v (join (map extra_row ((b ∷ before) ++ ((k, v) ∷ after))))
      ("<div class=\"log-extra\">" ∷ []) ("</div>" ∷ [])
      (subst (λ l. Contains v (join (extra_row b ∷ l)))
        (sym (map-append extra_row before ((k, v) ∷ after)))
        (Contains-join v (extra_row (k, v)) (extra_row b ∷ map extra_row before)
          (map extra_row after) (extra_row-value k v)))

format_entry-value :
    (lower_case : String → String) (e : Fields) (k v : String) (before after : Fields)
    → field "raw" e ≡ none
    → extra_fields e ≡ before ++ ((k, v) ∷ after)
    → Contains v (format_entry lower_case e)
unfolding format_entry
format_entry-value lower_case e k v before after plain among =
    let level = get_or "INFO" (field "levelname" e) in
    let inside : Contains v (extra_part (map extra_row (extra_fields e))) =
      subst (λ l. Contains v (extra_part (map extra_row l))) (sym among)
        (extra_part-value k v before after) in
    subst (Contains v)
      (ap (λ o. elim o as (λ x. String) [ some t ↦ raw_entry t | none ↦ formatted lower_case e ])
        (sym plain))
      (Contains-join v (extra_part (map extra_row (extra_fields e))) (above lower_case e)
        ("</div>" ∷ []) inside)

or_no_logs-join :
    (t : String) (before after : List String)
    → or_no_logs (before ++ (t ∷ after)) ≡ join (before ++ (t ∷ after))
or_no_logs-join t [] after = refl
or_no_logs-join t (b ∷ before) after = refl

-- Whatever the value of a further field of an entry that was read as JSON, the page of log
-- entries that an admin opens has it as it stands in the entry: markup in it is markup of the
-- page.
pub view_logs-Contains :
    (lower_case : String → String) (loads : String → LogLine) (cookie variable : Option String)
    (s : Service) (request_id : String) (files : List LogFile)
    (earlier_entries later_entries : List Fields) (e : Fields) (k v : String)
    (before after : Fields)
    → is_admin_authenticated cookie s.live ≡ true
    → log_entries loads request_id files ≡ ok (earlier_entries ++ (e ∷ later_entries))
    → field "raw" e ≡ none
    → extra_fields e ≡ before ++ ((k, v) ∷ after)
    → (container : String) × (n : ℕ) × (view_logs lower_case loads cookie variable s request_id
          files
        ≡ ok (logs_page request_id container n))
      × Contains v container
unfolding view_logs
view_logs-Contains lower_case loads cookie variable s request_id files ps qs e k v before after auth
      found plain among =
    let texts = map (format_entry lower_case) (ps ++ (e ∷ qs)) in
    let split = map-append (format_entry lower_case) ps (e ∷ qs) in
    (
      or_no_logs texts,
      length (ps ++ (e ∷ qs)),
      rw (auth) (ap (page_of lower_case request_id) found),
      subst (λ l. Contains v (or_no_logs l)) (sym split)
          (subst (Contains v)
            (sym (
              or_no_logs-join (format_entry lower_case e) (map (format_entry lower_case) ps)
                (map (format_entry lower_case) qs)))
            (Contains-join v (format_entry lower_case e) (map (format_entry lower_case) ps)
              (map (format_entry lower_case) qs)
              (format_entry-value lower_case e k v before after plain among))),
    )
