-- ===== src/Workflow/Raw.antt =====
-- The raw objects of a workflow in libs/config_sdk/workflow.py, and how they are coerced.
-- The keys of an object are distinct. A finite number that is not whole stands as whether it is zero,
-- its sign and its whole part; `json.loads` gives infinities too (`1e999`), and a NaN.
use yuviz.Base.{
  ℕ, Bool, true, false, not, Option, none, some, List, [], ◌∷◌, map, nat_beq, ltb, Text, codes,
  text_eq, ◌==◌, if◌then◌else◌,
}
use yuviz.Workflow.Words.{strip, is_empty}
use yuviz.Workflow.Graph.{Node, Edge, node_type, Extraction, ExtractionVariable}

pub data NotFinite : Type 0 where
  infinity minus_infinity nan : NotFinite

mutual
  pub data Json : Type 0 where
    null : Json
    boolean : Bool → Json
    whole : Bool → ℕ → Json
    decimal : Bool → Bool → ℕ → Json
    not_finite : NotFinite → Json
    string : Text → Json
    array : Items → Json
    object : Fields → Json

  pub data Items : Type 0 where
    no_items : Items
    item : Json → Items → Items

  pub data Fields : Type 0 where
    no_fields : Fields
    field : Text → Json → Fields → Fields

-- What Python's `str` makes of a value that is not a text, and `int` of a text: whether the number is
-- negative, and its size, or `none` for the `ValueError`.
pub record Python : Type 0 where
  pub shown : Json → Text
  pub int_of : Text → Option (Bool × ℕ)

-- what Python's `int` makes of a value: whether it is negative, and its size; a `TypeError` or a
-- `ValueError`; or an `OverflowError`
pub data Conversion : Type 0 where
  converted : Bool → ℕ → Conversion
  refused : Conversion
  overflowed : Conversion

abbrev pub int_of_not_finite : NotFinite → Conversion
int_of_not_finite infinity = overflowed
int_of_not_finite minus_infinity = overflowed
int_of_not_finite nan = refused

-- `bool(value)`
abbrev pub is_truthy : Json → Bool
is_truthy null = false
is_truthy (boolean b) = b
is_truthy (whole _ n) = not (nat_beq n 0)
is_truthy (decimal is_zero _ _) = not is_zero
is_truthy (not_finite _) = true
is_truthy (string t) = not (is_empty t)
is_truthy (array no_items) = false
is_truthy (array (item _ _)) = true
is_truthy (object no_fields) = false
is_truthy (object (field _ _ _)) = true

-- `raw.get(key)`
unfoldable pub get : Text → Fields → Json
get key no_fields = null
get key (field k v fields) = let rest = get key fields in if k == key then v else rest

abbrev pub to_list : Items → List Json
to_list no_items = []
to_list (item j items) = j ∷ to_list items

abbrev pub as_object : Json → Option Fields
as_object (object fields) = some fields
as_object _ = none

abbrev pub as_list : Json → Option (List Json)
as_list (array items) = some (to_list items)
as_list _ = none

-- `_data_object`
unfoldable pub data_object : Fields → Fields
unfolding get
data_object raw = elim (as_object (get (codes "data") raw)) [
  | none ↦ no_fields
  | some fields ↦ fields
]

abbrev pub text_or_none : Text → Option Text
text_or_none [] = none
text_or_none (c ∷ t) = some (c ∷ t)

-- `_MAX_DELAYED_START_MS`
abbrev pub max_delayed_start_ms : ℕ
max_delayed_start_ms = 2000

module _ (py : Python) where
  -- `str(value)`
  abbrev pub str_of : Json → Text
  str_of (string t) = t
  str_of null = py.shown null
  str_of (boolean b) = py.shown (boolean b)
  str_of (whole negative n) = py.shown (whole negative n)
  str_of (decimal is_zero negative n) = py.shown (decimal is_zero negative n)
  str_of (not_finite x) = py.shown (not_finite x)
  str_of (array items) = py.shown (array items)
  str_of (object fields) = py.shown (object fields)

  -- `str(value or "")`
  abbrev pub str_or_empty : Json → Text
  str_or_empty j = if is_truthy j then str_of j else []

  -- `_optional_str`
  unfoldable pub optional_str : Json → Option Text
  unfolding strip
  optional_str null = none
  optional_str (boolean b) = text_or_none (strip (str_of (boolean b)))
  optional_str (whole negative n) = text_or_none (strip (str_of (whole negative n)))
  optional_str (decimal is_zero negative n) =
      text_or_none (strip (str_of (decimal is_zero negative n)))
  optional_str (not_finite x) = text_or_none (strip (str_of (not_finite x)))
  optional_str (string t) = text_or_none (strip t)
  optional_str (array items) = text_or_none (strip (str_of (array items)))
  optional_str (object fields) = text_or_none (strip (str_of (object fields)))

  -- the comprehension over `raw_vars`
  unfoldable pub extraction_variables : List Json → List ExtractionVariable
  unfolding strip get
  extraction_variables [] = []
  extraction_variables (v ∷ raw) =
      let rest = extraction_variables raw in
      elim (as_object v) [
        | none ↦ rest
        | some f ↦
            let name = strip (str_or_empty (get (codes "name") f)) in
            let type = get (codes "type") f in
            if is_empty name
            then rest
            else record {
              var_name = name;
              var_type = (if is_truthy type then str_of type else codes "string");
              var_prompt = str_or_empty (get (codes "prompt") f);
            }
              ∷ rest
      ]

  -- `_parse_extraction`
  unfoldable pub parse_extraction : Json → Option Extraction
  unfolding extraction_variables get
  parse_extraction j = elim (as_object j) [
    | none ↦ none
    | some f ↦
        let raw : List Json = elim (as_list (get (codes "variables") f)) [
          | none ↦ []
          | some vs ↦ vs
        ] in
        some (record {
          enabled = is_truthy (get (codes "enabled") f);
          extraction_prompt = str_or_empty (get (codes "prompt") f);
          variables = extraction_variables raw;
        })
  ]

  -- `_str_list`
  unfoldable pub str_list : Json → List Text
  str_list j = elim (as_list j) [ none ↦ [] | some items ↦ map str_of items ]

  -- `int` of a text
  abbrev pub int_of_text : Text → Conversion
  int_of_text t = elim (py.int_of t) [ none ↦ refused | some (negative, n) ↦ converted negative n ]

  -- `int(raw or 0)`
  unfoldable pub int_or_zero : Json → Conversion
  int_or_zero null = converted false 0
  int_or_zero (boolean b) = converted false (if b then 1 else 0)
  int_or_zero (whole negative n) = converted negative n
  int_or_zero (decimal is_zero negative n) = converted negative (if is_zero then 0 else n)
  int_or_zero (not_finite x) = int_of_not_finite x
  int_or_zero (string t) = if is_empty t then converted false 0 else int_of_text t
  int_or_zero (array no_items) = converted false 0
  int_or_zero (array (item _ _)) = refused
  int_or_zero (object no_fields) = converted false 0
  int_or_zero (object (field _ _ _)) = refused

  -- `_delayed_start_ms`, with `none` for the `OverflowError`, which it does not catch
  unfoldable pub delayed_start : Json → Option ℕ
  unfolding int_or_zero
  delayed_start j = elim (int_or_zero j) [
    | overflowed ↦ none
    | refused ↦ some 0
    | converted negative n ↦
        some
          (if negative then 0 else if ltb max_delayed_start_ms n then max_delayed_start_ms else n)
  ]

  -- `None if greeting is None else str(greeting)`
  abbrev pub greeting_of : Json → Option Text
  greeting_of null = none
  greeting_of (boolean b) = some (str_of (boolean b))
  greeting_of (whole negative n) = some (str_of (whole negative n))
  greeting_of (decimal is_zero negative n) = some (str_of (decimal is_zero negative n))
  greeting_of (not_finite x) = some (str_of (not_finite x))
  greeting_of (string t) = some t
  greeting_of (array items) = some (str_of (array items))
  greeting_of (object fields) = some (str_of (object fields))

  -- `_node_from_raw`, with `none` for an `OverflowError`
  unfoldable pub node_from_raw : Fields → Option Node
  unfolding get data_object strip delayed_start str_list parse_extraction optional_str node_type
  node_from_raw raw =
      let inner = data_object raw in
      elim (delayed_start (get (codes "delayed_start_ms") inner)) [
        | none ↦ none
        | some delay ↦ some (record {
          id = str_or_empty (get (codes "id") raw);
          type = node_type (str_or_empty (get (codes "type") raw));
          name = strip (str_or_empty (get (codes "name") inner));
          prompt = str_or_empty (get (codes "prompt") inner);
          greeting = greeting_of (get (codes "greeting") inner);
          delayed_start_ms = delay;
          tools = str_list (get (codes "tools") inner);
          knowledge_base_ids = str_list (get (codes "knowledge_base_ids") inner);
          extraction = parse_extraction (get (codes "extraction") inner);
          transfer_destination = optional_str (get (codes "transfer_destination") inner);
          disposition = optional_str (get (codes "disposition") inner);
          out_edges = [];
        })
      ]

  -- `_edge_from_raw`
  unfoldable pub edge_from_raw : Fields → Edge
  unfolding get data_object strip
  edge_from_raw raw =
      let inner = data_object raw in
      record {
        edge_id = str_or_empty (get (codes "id") raw);
        source = str_or_empty (get (codes "source") raw);
        target = str_or_empty (get (codes "target") raw);
        label = strip (str_or_empty (get (codes "label") inner));
        condition = strip (str_or_empty (get (codes "condition") inner));
        transition_speech =
            text_or_none (strip (str_or_empty (get (codes "transition_speech") inner)));
      }
