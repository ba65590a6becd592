-- ===== src/Clist.antt =====
-- The circular lists of common.h: `st_clist_t` and the macros that change it, over all links of the
-- program. A link is a number. The other modules work with the lists that these rings stand for.
pub mod Ring
pub mod Insert
pub mod Remove
use st_nvs.Base.{ℕ, ◌==◌, if◌then◌else◌, Bool}

-- The `next` and `prev` fields.
pub record Links : Type 0 where
  pub next : ℕ → ℕ
  pub prev : ℕ → ℕ

abbrev pub set : ℕ → ℕ → (ℕ → ℕ) → ℕ → ℕ
set a x f b = if b == a then x else f b

-- `(_a)->next = (_b)` and `(_a)->prev = (_b)`
abbrev pub set_next : ℕ → ℕ → Links → Links
set_next a b h = record h { next = set a b h.next }

abbrev pub set_prev : ℕ → ℕ → Links → Links
set_prev a b h = record h { prev = set a b h.prev }

-- `ST_INSERT_BEFORE` and `ST_APPEND_LINK`
unfoldable pub insert_before : (e l : ℕ) → Links → Links
insert_before e l h =
    let h1 = set_next e l h in
    let h2 = set_prev e (h1.prev l) h1 in let h3 = set_next (h2.prev l) e h2 in set_prev l e h3

-- `ST_INSERT_AFTER` and `ST_INSERT_LINK`
unfoldable pub insert_after : (e l : ℕ) → Links → Links
insert_after e l h =
    let h1 = set_next e (h.next l) h in
    let h2 = set_prev e l h1 in let h3 = set_prev (h2.next l) e h2 in set_next l e h3

-- `ST_REMOVE_LINK`
unfoldable pub remove : (e : ℕ) → Links → Links
remove e h = let h1 = set_next (h.prev e) (h.next e) h in set_prev (h1.next e) (h1.prev e) h1

-- `ST_CLIST_IS_EMPTY` and `ST_INIT_CLIST`
unfoldable pub clist_is_empty : (l : ℕ) → Links → Bool
clist_is_empty l h = h.next l == l

unfoldable pub init_clist : (l : ℕ) → Links → Links
init_clist l h = set_prev l l (set_next l l h)
