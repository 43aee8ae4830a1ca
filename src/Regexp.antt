-- ===== src/Regexp.antt =====
-- stdlib/regexp/regexp.go on bytes. The kinds of the struct `node` are the constructors of `Node`.
pub mod Match
pub mod Find
pub mod Parse
mod Tests
use wasigoc.Common.{ℕ, Bool, List}

pub record ClassRange : Type 0 where
  pub lo : ℕ
  pub hi : ℕ

mutual
  pub data Node : Type 0 where
    char : ℕ → Node
    any : Node
    class : Bool → List ClassRange → Node
    star : Node → Node
    plus : Node → Node
    quest : Node → Node
    concat : Nodes → Node
    alt : Nodes → Node
    group : Node → Node
    start : Node
    end_ : Node

  pub data Nodes : Type 0 where
    nil : Nodes
    cons : Node → Nodes → Nodes
