-- ===== src/Tui/Form.antt =====
-- internal/tui/add.go: the form of the dialog for adding a torrent, and the editing of its two texts. A
-- text is the list of its runes.
use torrcli.Base.{
  ℕ, zero, suc, ◌+◌, ◌-◌, Bool, false, ◌&&◌, ◌||◌, String, List, [], ◌∷◌, ◌++◌, ltb, leb, length,
  min, ℕ_discrete, dec_list, has_member, if◌then◌else◌,
}

abbrev pub Text : Type 0
Text = List ℕ

abbrev pub dec_text : Discrete Text
dec_text = dec_list ℕ_discrete

pub data Field : Type 0 where
  add_source add_path add_sequential add_paused add_submit : Field

-- `addForm`, and the model's `input`, which is the text of the source.
pub record AddForm : Type 0 where
  pub field : Field
  pub cancel : Bool
  pub source : Text
  pub source_cursor : ℕ
  pub path : Text
  pub path_cursor : ℕ
  pub default_path : String
  pub sequential : Bool
  pub paused : Bool
  pub preview : String
  pub error : String

-- `addForm{}` and an empty input.
abbrev pub empty_form : AddForm
empty_form = record {
  field = add_source;
  cancel = false;
  source = [];
  source_cursor = 0;
  path = [];
  path_cursor = 0;
  default_path = "";
  sequential = false;
  paused = false;
  preview = "";
  error = "";
}

-- `(old + delta + addSubmit + 1) % (addSubmit + 1)` for 1 and -1.
abbrev pub next_field : Field → Field
next_field add_source = add_path
next_field add_path = add_sequential
next_field add_sequential = add_paused
next_field add_paused = add_submit
next_field add_submit = add_source

abbrev pub previous_field : Field → Field
previous_field add_source = add_submit
previous_field add_path = add_source
previous_field add_sequential = add_path
previous_field add_paused = add_sequential
previous_field add_submit = add_paused

-- A key, as bubbletea tells it: `runes` has what was typed or pasted.
pub data Key : Type 0 where
  ctrl_c esc enter up down left right tab shift_tab shift_up shift_down : Key
  home end_key ctrl_a ctrl_e ctrl_u backspace delete_key space other_key : Key
  runes : Text → Key

-- `unicode.IsControl`.
unfoldable pub is_control : ℕ → Bool
is_control r = leb r 31 || (leb 127 r && leb r 159)

-- `unicode.IsSpace`.
unfoldable pub is_space : ℕ → Bool
is_space r =
    (leb 9 r && leb r 13)
    || (leb 8192 r && leb r 8202)
    || has_member ℕ_discrete r (32 ∷ 133 ∷ 160 ∷ 5760 ∷ 8232 ∷ 8233 ∷ 8239 ∷ 8287 ∷ 12288 ∷ [])

unfoldable pub trim_left : Text → Text
unfolding is_space
trim_left [] = []
trim_left (r ∷ rs) = let rest = trim_left rs in if is_space r then rest else r ∷ rs

unfoldable pub trim_right : Text → Text
unfolding is_space
trim_right [] = []
trim_right (r ∷ rs) = kept (trim_right rs)
  where
    kept : Text → Text
    kept [] = if is_space r then [] else r ∷ []
    kept (q ∷ qs) = r ∷ q ∷ qs

-- `strings.TrimSpace`.
unfoldable pub trim_space : Text → Text
unfolding trim_left trim_right
trim_space t = trim_left (trim_right t)

abbrev pub take : ℕ → Text → Text
take zero t = []
take (suc n) [] = []
take (suc n) (r ∷ rs) = r ∷ take n rs

abbrev pub drop : ℕ → Text → Text
drop zero t = t
drop (suc n) [] = []
drop (suc n) (r ∷ rs) = drop n rs

unfoldable pub clean : Text → Text
unfolding is_control
clean [] = []
clean (r ∷ rs) = let rest = clean rs in if is_control r then rest else r ∷ rest

abbrev insert : Text → Text → ℕ → Text × ℕ
insert typed t cursor = (take cursor t ++ typed ++ drop cursor t, cursor + length typed)

-- The text and the cursor after a key.
unfoldable pub edit : Key → Text → ℕ → Text × ℕ
unfolding clean
edit left t cursor = (t, cursor - 1)
edit right t cursor = (t, min (length t) (cursor + 1))
edit home t cursor = (t, 0)
edit ctrl_a t cursor = (t, 0)
edit end_key t cursor = (t, length t)
edit ctrl_e t cursor = (t, length t)
edit backspace t cursor =
    if ltb 0 cursor then (take (cursor - 1) t ++ drop cursor t, cursor - 1) else (t, cursor)
edit delete_key t cursor =
    if ltb cursor (length t) then (take cursor t ++ drop (cursor + 1) t, cursor) else (t, cursor)
edit ctrl_u t cursor = (drop cursor t, 0)
edit space t cursor = insert (32 ∷ []) t cursor
edit (runes typed) t cursor = insert (clean typed) t cursor
edit _ t cursor = (t, cursor)

-- The end of updateAddDialog, for the field that has the text.
unfoldable pub edit_source : Key → AddForm → AddForm
unfolding edit
edit_source key form =
    let r = edit key form.source (min form.source_cursor (length form.source)) in
    record form { source = r.0; source_cursor = r.1; error = ""; preview = "" }

unfoldable pub edit_path : Key → AddForm → AddForm
unfolding edit
edit_path key form =
    let r = edit key form.path (min form.path_cursor (length form.path)) in
    record form { path = r.0; path_cursor = r.1; error = "" }
