-- ===== src/Notification/RecentMessageIds.antt =====
-- notification/recent-message-ids.ts: the ids of the messages that were delivered, the oldest first,
-- as a `Set` iterates over them.
pub mod Memory
pub mod Origin
use nest_order_api.Common.{
  ℕ, Text, text_eq, Bool, not, List, [], ◌∷◌, ◌++◌, any, keep, length, ltb, if◌then◌else◌,
}

abbrev pub RecentMessageIds : Type 0
RecentMessageIds = List Text

-- `this.ids.has(id)`
unfoldable pub has : Text → RecentMessageIds → Bool
has id ids = any (λ x. text_eq x id) ids

-- `this.ids.delete(id)`
unfoldable pub delete : Text → RecentMessageIds → RecentMessageIds
delete id ids = keep (λ x. not (text_eq x id)) ids

-- `while (this.ids.size > this.capacity) this.ids.delete(oldest)`
unfoldable pub evict : ℕ → RecentMessageIds → RecentMessageIds
evict capacity [] = []
evict capacity (oldest ∷ ids) =
    let rest = evict capacity ids in
    if ltb capacity (length (oldest ∷ ids)) then rest else oldest ∷ ids

-- `this.ids.add(id)` after the deletion puts the id last.
unfoldable pub add : ℕ → Text → RecentMessageIds → RecentMessageIds
unfolding delete evict
add capacity id ids = evict capacity (delete id ids ++ id ∷ [])

-- Several ids, one after the other.
unfoldable pub add_all : ℕ → List Text → RecentMessageIds → RecentMessageIds
add_all capacity [] ids = ids
add_all capacity (x ∷ xs) ids = add_all capacity xs (add capacity x ids)
