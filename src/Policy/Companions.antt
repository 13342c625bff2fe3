-- ===== src/Policy/Companions.antt =====
-- `_add_auto_derived_companions` of policy_resolver.py.
use yuviz.Base.{
  String, ◌≡◌, refl, ◌||◌, ◌&&◌, not, none, some, is_some, List, [], ◌∷◌, ◌++◌, map, ◌==◌,
  string_eq, arith, Option-cases, inl, inr, if◌then◌else◌, append-nil, any, subst, Bool, true,
  false, Bool-cases,
}
use yuviz.Tools.{ToolDefinition, ToolRegistry, resolve}
use yuviz.Policy.{
  ResolvedToolPolicy, PolicyRow, resolve_rows, tool_name_of, contains, find_policy,
  add_auto_derived_companions,
}
use yuviz.Policy.Narrowing.{has_tool, any-append}

contains-names :
    (name : String) (ps : List ResolvedToolPolicy)
    → contains (map tool_name_of ps) name ≡ is_some (find_policy name ps)
unfolding find_policy
contains-names name [] = refl
contains-names name (p ∷ ps) = ground (arith, contains-names name ps)

-- The policy that `source` lends to a companion: none if a policy of that name is there already, or
-- if no such tool is registered.
unfoldable pub companion :
    ToolRegistry → ResolvedToolPolicy → List ResolvedToolPolicy → String → List ResolvedToolPolicy
companion registry source resolved name =
    if contains (map tool_name_of resolved) name
    then []
    else elim (resolve registry name) [ none ↦ [] | some d ↦ record source { definition = d } ∷ [] ]

-- The companions of `book_appointment`, after every policy that was there: explicit rows win, and
-- without `book_appointment` nothing is added.
pub companions_lem :
    (registry : ToolRegistry) (resolved : List ResolvedToolPolicy)
    → add_auto_derived_companions registry resolved
      ≡ elim (find_policy "book_appointment" resolved) [
        | none ↦ resolved
        | some source ↦
            (resolved ++ companion registry source resolved "cancel_appointment")
            ++ companion registry source resolved "reschedule_appointment"
      ]
unfolding add_auto_derived_companions companion
companions_lem registry resolved = elim (Option-cases (find_policy "book_appointment" resolved)) [
  | inl e ↦ ground (arith, contains-names "book_appointment" resolved)
  | inr (source, e) ↦ ground (
    arith,
    contains-names "book_appointment" resolved,
    append-nil resolved,
    append-nil (resolved ++ companion registry source resolved "cancel_appointment"),
  )
]

-- one of the rows names the tool
abbrev pub has_row : String → List PolicyRow → Bool
has_row n rows = any (λ row. row.tool_name == n) rows

-- Whether an agent with the rows may use a tool.
abbrev pub rows_grant : ToolRegistry → List PolicyRow → String → Bool
rows_grant registry rows n =
    is_some (resolve registry n)
    && (has_row n rows
        || (has_row "book_appointment" rows
            && is_some (resolve registry "book_appointment")
            && ("cancel_appointment" == n || "reschedule_appointment" == n)))

-- The registry stores each definition under its own name, as `register` does.
pub record IsCoherent (registry : ToolRegistry) : Type 0 where
  pub named : (name : String) (d : ToolDefinition) → resolve registry name ≡ some d → d.name ≡ name

has_tool-names :
    (name : String) (ps : List ResolvedToolPolicy)
    → has_tool name ps ≡ contains (map tool_name_of ps) name
has_tool-names name [] = refl
has_tool-names name (p ∷ ps) = ground (arith, has_tool-names name ps)

module _ (registry : ToolRegistry) (coherent : IsCoherent registry) where
  has_tool-companion :
      (source : ResolvedToolPolicy) (resolved : List ResolvedToolPolicy) (name n : String)
      → has_tool n (companion registry source resolved name)
        ≡ (not (has_tool name resolved) && is_some (resolve registry name) && name == n)
  unfolding companion
  has_tool-companion source resolved name n = elim (Option-cases (resolve registry name)) [
    | inl e ↦ ground (arith, has_tool-names name resolved)
    | inr (d, e) ↦
        ground (
          arith,
          has_tool-names name resolved,
          coherent.named name d e,
          string_eq.is_same_iff name n,
        )
  ]

  -- The companions are added, as far as they are registered, where `book_appointment` is resolved.
  has_tool-add_auto_derived_companions :
      (resolved : List ResolvedToolPolicy) (n : String)
      → has_tool n (add_auto_derived_companions registry resolved) ≡ (
          has_tool n resolved
          || (has_tool "book_appointment" resolved
              && ("cancel_appointment" == n || "reschedule_appointment" == n)
              && is_some (resolve registry n)))
  has_tool-add_auto_derived_companions resolved n =
      rw (companions_lem registry resolved)
        (elim (Option-cases (find_policy "book_appointment" resolved)) [
          | inl e ↦ rw e (
              ground (
                arith,
                contains-names "book_appointment" resolved,
                has_tool-names "book_appointment" resolved,
              ))
          | inr (source, e) ↦ rw e (
              ground (
                arith,
                contains-names "book_appointment" resolved,
                has_tool-names "book_appointment" resolved,
                string_eq.is_same_iff "cancel_appointment" n,
                string_eq.is_same_iff "reschedule_appointment" n,
                any-append (λ (p : ResolvedToolPolicy). tool_name_of p == n) resolved
                    (companion registry source resolved "cancel_appointment"),
                any-append (λ (p : ResolvedToolPolicy). tool_name_of p == n)
                    (resolved ++ companion registry source resolved "cancel_appointment")
                    (companion registry source resolved "reschedule_appointment"),
                has_tool-companion source resolved "cancel_appointment" n,
                has_tool-companion source resolved "reschedule_appointment" n,
              ))
        ])

  has_tool-resolve_rows :
      (rows : List PolicyRow) (n : String)
      → has_tool n (resolve_rows registry rows) ≡ (has_row n rows && is_some (resolve registry n))
  unfolding resolve_rows
  has_tool-resolve_rows [] n = refl
  has_tool-resolve_rows (row ∷ rows) n = elim (Option-cases (resolve registry row.tool_name)) [
    | inl e ↦ elim (Bool-cases (row.tool_name == n)) [
      | inl same ↦
          let is_n : row.tool_name ≡ n = (string_eq.is_same_iff row.tool_name n).0 same in
          let missing : resolve registry n ≡ none =
            subst (λ (x : String). resolve registry x ≡ none) is_n e in
          ground (arith, e, missing, same, has_tool-resolve_rows rows n)
      | inr other ↦ ground (arith, e, other, has_tool-resolve_rows rows n)
    ]
    | inr (d, e) ↦ elim (Bool-cases (row.tool_name == n)) [
      | inl same ↦
          let is_n : row.tool_name ≡ n = (string_eq.is_same_iff row.tool_name n).0 same in
          let found : resolve registry n ≡ some d =
            subst (λ (x : String). resolve registry x ≡ some d) is_n e in
          let hit : (d.name == n) ≡ true =
            (string_eq.is_same_iff d.name n).1 (coherent.named n d found) in
          ground (arith, e, found, same, hit, has_tool-resolve_rows rows n)
      | inr other ↦
          let miss : (d.name == n) ≡ false = ground (
            arith,
            coherent.named row.tool_name d e,
            other,
            string_eq.is_same_iff row.tool_name n,
            string_eq.is_same_iff d.name n,
          ) in
          ground (arith, e, other, miss, has_tool-resolve_rows rows n)
    ]
  ]

  -- With a registry that stores each definition under its own name, the tools of an agent are those
  -- that are registered and that one of its rows names, and, where `book_appointment` is one of these,
  -- the two companions, as far as they are registered.
  pub has_tool-granted :
      (rows : List PolicyRow) (n : String)
      → has_tool n (add_auto_derived_companions registry (resolve_rows registry rows))
        ≡ rows_grant registry rows n
  has_tool-granted rows n = ground (
    arith,
    has_tool-add_auto_derived_companions (resolve_rows registry rows) n,
    has_tool-resolve_rows rows n,
    has_tool-resolve_rows rows "book_appointment",
  )
