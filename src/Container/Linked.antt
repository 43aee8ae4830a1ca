-- ===== src/Container/Linked.antt =====
-- stdlib/container/list/list.go. The elements stand at addresses in a store; `self` is the address
-- of the list that the methods are called on, and `fresh` the address of a new element.
pub mod Chain
pub mod Laws
pub mod Push
pub mod Insert
use wasigoc.Common.{
  ℕ, zero, suc, ◌+◌, ◌-◌, Bool, true, false, Option, none, some, ◌==◌, not, if◌then◌else◌,
}

pub record Element (A : Type 0) : Type 0 where
  pub next : Option ℕ
  pub prev : Option ℕ
  pub list : Option ℕ
  pub value : A

-- The store and the fields of the list.
pub record Store (A : Type 0) : Type 0 where
  pub cells : ℕ → Element A
  pub head : Option ℕ
  pub tail : Option ℕ
  pub n : ℕ

-- `e.list == l`
abbrev pub owned : ℕ → Option ℕ → Bool
owned self none = false
owned self (some l) = l == self

module _ {A : Type 0} where
  abbrev pub write : (ℕ → Element A) → ℕ → Element A → ℕ → Element A
  write cells p e q = if p == q then e else cells q

  -- `p.next = q` and `p.prev = q`
  abbrev pub set_next : (ℕ → Element A) → ℕ → Option ℕ → ℕ → Element A
  set_next cells p q = write cells p (record (cells p) { next = q })

  abbrev pub set_prev : (ℕ → Element A) → ℕ → Option ℕ → ℕ → Element A
  set_prev cells p q = write cells p (record (cells p) { prev = q })

  -- `if p != nil { p.next = q } else { l.head = q }`
  pub link_next : Option ℕ → Option ℕ → Store A → Store A
  link_next none q s = record s { head = q }
  link_next (some p) q s = record s { cells = set_next (s.cells) p q }

  -- `if p != nil { p.prev = q } else { l.tail = q }`
  pub link_prev : Option ℕ → Option ℕ → Store A → Store A
  link_prev none q s = record s { tail = q }
  link_prev (some p) q s = record s { cells = set_prev (s.cells) p q }

  -- `e.next = nil; e.prev = nil; e.list = nil; l.n--`
  pub drop_element : ℕ → Store A → Store A
  drop_element e s = record s {
    cells =
        write (s.cells) e
          (record { next = none; prev = none; list = none; value = (s.cells e).value });
    n = s.n - 1;
  }

  -- Each of the two tests reads the element again.
  pub unlink : ℕ → Store A → Store A
  unlink e s =
      let s' = link_next ((s.cells e).prev) ((s.cells e).next) s in
      link_prev ((s'.cells e).next) ((s'.cells e).prev) s'

  module _ (self : ℕ) where
    pub push_back : ℕ → A → Store A → Store A
    push_back fresh v s =
        let e : Element A = record { next = none; prev = none; list = some self; value = v } in
        elim (s.tail) [
          | none ↦ record {
            cells = write (s.cells) fresh e;
            head = some fresh;
            tail = some fresh;
            n = s.n + 1;
          }
          | some t ↦ record {
            cells = set_next (write (s.cells) fresh (record e { prev = some t })) t (some fresh);
            head = s.head;
            tail = some fresh;
            n = s.n + 1;
          }
        ]

    pub push_front : ℕ → A → Store A → Store A
    push_front fresh v s =
        let e : Element A = record { next = none; prev = none; list = some self; value = v } in
        elim (s.head) [
          | none ↦ record {
            cells = write (s.cells) fresh e;
            head = some fresh;
            tail = some fresh;
            n = s.n + 1;
          }
          | some t ↦ record {
            cells = set_prev (write (s.cells) fresh (record e { next = some t })) t (some fresh);
            head = some fresh;
            tail = s.tail;
            n = s.n + 1;
          }
        ]

    pub remove : ℕ → Store A → A × Store A
    remove e s =
        if not (owned self ((s.cells e).list))
        then ((s.cells e).value, s)
        else ((s.cells e).value, drop_element e (unlink e s))

    -- A new element with its links.
    abbrev pub allocate : ℕ → A → Option ℕ → Option ℕ → Store A → Store A
    allocate fresh v prev next s = record s {
      cells =
          write (s.cells) fresh (record { next = next; prev = prev; list = some self; value = v });
      n = s.n + 1;
    }

    -- `none` is the result nil, for a mark that is nil or of another list.
    pub insert_before : ℕ → A → Option ℕ → Store A → Option (Store A)
    insert_before fresh v none s = none
    insert_before fresh v (some mark) s =
        let prev = (s.cells mark).prev in
        if not (owned self ((s.cells mark).list))
        then none
        else some (
            link_prev (some mark) (some fresh)
              (link_next prev (some fresh) (allocate fresh v prev (some mark) s)))

    pub insert_after : ℕ → A → Option ℕ → Store A → Option (Store A)
    insert_after fresh v none s = none
    insert_after fresh v (some mark) s =
        let next = (s.cells mark).next in
        if not (owned self ((s.cells mark).list))
        then none
        else some (
            link_next (some mark) (some fresh)
              (link_prev next (some fresh) (allocate fresh v (some mark) next s)))

    -- Init forgets the elements; they keep their fields.
    pub init : Store A → Store A
    init s = record s { head = none; tail = none; n = 0 }
