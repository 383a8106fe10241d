-- ===== src/Pipeline.antt =====
-- nets/net/core/ChannelHandler.cpp and ChannelHandlerPipeline.cpp: the handlers of a channel, a singly
-- linked list of shared pointers. A handler is its address in a heap; a null pointer is `none`. The
-- loops along the list take fuel, since a list that was closed to a ring has no end.
pub mod Chain
pub mod Adds
pub mod Removes
pub mod Removals
pub mod Lasts
pub mod Events
pub mod Shared
pub mod Rings
mod Tests
use Prim.Native.String.{String}
use text.Mathlib.Text.{◌==◌ as str_eq}
use nets.Prelude.{
  ℕ, zero, suc, Bool, true, false, ◌||◌, Option, none, some, List, [], ◌∷◌, ◌==◌, if◌then◌else◌,
}
use nets.Memory.{Result, ok, err, invalid_access, diverges, ◌>>=◌}

pub record ChannelHandler : Type 0 where
  pub name : String
  pub next : Option ℕ

abbrev pub Heap : Type 0
Heap = ℕ → ChannelHandler

pub set_next : Heap → ℕ → Option ℕ → Heap
set_next h p n q = if p == q then record { name = (h p).name; next = n } else h q

pub record Pipeline : Type 0 where
  pub heap : Heap
  pub head : Option ℕ

-- `while (temp->next_ != nullptr) temp = temp->next_`
pub last_from : ℕ → Heap → ℕ → Result ℕ
last_from zero h temp = err diverges
last_from (suc fuel) h temp = elim (h temp).next [ none ↦ ok temp | some t ↦ last_from fuel h t ]

pub find_last : ℕ → Heap → ℕ → Result ℕ
unfolding last_from
find_last fuel h this = elim (h this).next [ none ↦ ok this | some t ↦ last_from fuel h t ]

pub last_prev_from : ℕ → Heap → ℕ → ℕ → Result ℕ
last_prev_from zero h prev temp = err diverges
last_prev_from (suc fuel) h prev temp = elim (h temp).next [
  | none ↦ ok prev
  | some t ↦ last_prev_from fuel h temp t
]

-- A handler with nothing behind it has no last one to look before: the source follows a null pointer.
pub find_last_prev : ℕ → Heap → ℕ → Result ℕ
unfolding last_prev_from
find_last_prev fuel h this = elim (h this).next [
  | none ↦ err invalid_access
  | some t ↦ last_prev_from fuel h this t
]

-- `findChannelHandlerPrev`, for a name and for a pointer: the handler before the first that passes
-- the test.
pub prev_from : ℕ → Heap → (ℕ → Bool) → ℕ → Option ℕ → Result (Option ℕ)
prev_from fuel h test prev none = ok none
prev_from zero h test prev (some temp) = err diverges
prev_from (suc fuel) h test prev (some temp) =
    let rest = prev_from fuel h test temp (h temp).next in
    if test temp then ok (some prev) else rest

pub find_channel_handler_prev : ℕ → Heap → (ℕ → Bool) → ℕ → Result (Option ℕ)
unfolding prev_from
find_channel_handler_prev fuel h test this = prev_from fuel h test this (h this).next

abbrev pub has_name : Heap → String → ℕ → Bool
has_name h name p = str_eq (h p).name name

abbrev pub is_pointer : ℕ → ℕ → Bool
is_pointer q p = p == q

add_first_to : Option ℕ → Pipeline → ℕ → Pipeline
unfolding set_next
add_first_to none p x = record p { head = some x }
add_first_to (some first) p x = record { heap = set_next p.heap x (some first); head = some x }

pub add_first : Pipeline → Option ℕ → Pipeline
unfolding add_first_to
add_first p none = p
add_first p (some x) = add_first_to p.head p x

add_last_to : ℕ → Option ℕ → Pipeline → ℕ → Result Pipeline
unfolding find_last set_next
add_last_to fuel none p x = ok (record p { head = some x })
add_last_to fuel (some first) p x =
    find_last fuel p.heap first >>= λ last. ok (record p { heap = set_next p.heap last (some x) })

pub add_last : ℕ → Pipeline → Option ℕ → Result Pipeline
unfolding add_last_to
add_last fuel p none = ok p
add_last fuel p (some x) = add_last_to fuel p.head p x

-- `unlinkHead`, at the head `first`
pub unlink_head_to : Option ℕ → Pipeline → ℕ → Pipeline
unfolding set_next
unlink_head_to none p first = record p { head = none }
unlink_head_to (some next) p first = record { heap = set_next p.heap first none; head = some next }

pub unlink_head : Pipeline → ℕ → Pipeline
unfolding unlink_head_to
unlink_head p first = unlink_head_to (p.heap first).next p first

pub unlink_to : Option ℕ → Pipeline → ℕ → ℕ → Pipeline
unfolding set_next
unlink_to none p prev x = record p { heap = set_next p.heap prev none }
unlink_to (some next) p prev x = record p {
  heap = set_next (set_next p.heap prev (some next)) x none;
}

pub unlink_channel_handler : Pipeline → ℕ → ℕ → Pipeline
unfolding unlink_to
unlink_channel_handler p prev x = unlink_to (p.heap x).next p prev x

pub remove_first_of : Option ℕ → Pipeline → Option ℕ × Pipeline
unfolding unlink_head
remove_first_of none p = (none, p)
remove_first_of (some first) p = (some first, unlink_head p first)

pub remove_first : Pipeline → Option ℕ × Pipeline
unfolding remove_first_of
remove_first p = remove_first_of p.head p

pub remove_last_behind : ℕ → Option ℕ → Pipeline → ℕ → Result (Option ℕ × Pipeline)
unfolding unlink_head find_last_prev set_next
remove_last_behind fuel none p first = ok (some first, unlink_head p first)
remove_last_behind fuel (some next) p first = find_last_prev fuel p.heap first >>= λ prev.
    ok ((p.heap prev).next, record p { heap = set_next p.heap prev none })

pub remove_last_of : ℕ → Option ℕ → Pipeline → Result (Option ℕ × Pipeline)
unfolding remove_last_behind
remove_last_of fuel none p = ok (none, p)
remove_last_of fuel (some first) p = remove_last_behind fuel (p.heap first).next p first

pub remove_last : ℕ → Pipeline → Result (Option ℕ × Pipeline)
unfolding remove_last_of
remove_last fuel p = remove_last_of fuel p.head p

-- The handler behind `prev` is unlinked.
pub unlink_behind : Pipeline → Option ℕ → Option ℕ → Result (Option ℕ × Pipeline)
unfolding unlink_channel_handler
unlink_behind p none x = ok (none, p)
unlink_behind p (some prev) none = err invalid_access
unlink_behind p (some prev) (some x) = ok (some x, unlink_channel_handler p prev x)

abbrev pub next_of : Heap → Option ℕ → Option ℕ
next_of h none = none
next_of h (some p) = (h p).next

-- Both kinds of `remove`: the first handler that passes the test.
pub remove_where : ℕ → (ℕ → Bool) → Option ℕ → Pipeline → Result (Option ℕ × Pipeline)
unfolding unlink_head find_channel_handler_prev unlink_behind
remove_where fuel test none p = ok (none, p)
remove_where fuel test (some first) p =
    if test first
    then ok (some first, unlink_head p first)
    else (find_channel_handler_prev fuel p.heap test first >>= λ prev.
        unlink_behind p prev (next_of p.heap prev))

pub remove_named : ℕ → Pipeline → String → Result (Option ℕ × Pipeline)
unfolding remove_where
remove_named fuel p name =
    if str_eq name "" then ok (none, p) else remove_where fuel (has_name p.heap name) p.head p

pub is_some : Option ℕ → Bool
is_some none = false
is_some (some x) = true

pub remove_handler : ℕ → Pipeline → Option ℕ → Result (Bool × Pipeline)
unfolding remove_where is_some
remove_handler fuel p none = ok (false, p)
remove_handler fuel p (some x) =
    remove_where fuel (is_pointer x) p.head p >>= λ (found, p'). ok (is_some found, p')
