-- ===== src/Workspace.antt =====
-- src/detail/workspace.cpp and include/boost/http_proto/detail/impl/workspace.hpp: one block of
-- storage that is reserved from the front and from the back and holds objects in between. Addresses
-- are numbers. The `next` members that the objects carry in the block are a list of its own, newest
-- object first.
pub mod Regions
use http_proto.Base.{
  ℕ, ◌+◌, ◌-◌, ◌*◌, ◌/◌, Bool, true, false, not, ◌||◌, List, [], ◌∷◌, ◌==◌, ltb, leb, if◌then◌else◌,
}

-- `any`: where the object stands, and its `next`.
pub record Object : Type 0 where
  pub at : ℕ
  pub next : ℕ

-- `allocated` is `begin_ != nullptr`.
pub record Space : Type 0 where
  pub allocated : Bool
  pub begin : ℕ
  pub front : ℕ
  pub head : ℕ
  pub back : ℕ
  pub last : ℕ
  pub objects : List Object

pub data Thrown : Type 0 where
  invalid_argument logic_error length_error bad_alloc : Thrown

-- What a call returns, or throws.
pub data Outcome (A : Type 0) : Type 0 where
  returns : A → Outcome A
  throws : Thrown → Outcome A

abbrev pub size : Space → ℕ
size w = w.head - w.front

-- `p` is what `new unsigned char[n]` returns.
unfoldable pub allocate : ℕ → ℕ → Space → Outcome Space
allocate p n w =
    if n == 0
    then throws invalid_argument
    else if w.allocated
    then throws logic_error
    else returns (record w {
      allocated = true;
      begin = p;
      front = p;
      head = p + n;
      back = p + n;
      last = p + n;
      objects = [];
    })

unfoldable pub reserve_front : ℕ → Space → Outcome (Space × ℕ)
reserve_front n w =
    if leb (size w) n
    then throws length_error
    else returns (record w { front = w.front + n }, w.front)

unfoldable pub reserve_back : ℕ → Space → Outcome (Space × ℕ)
reserve_back n w =
    if not (w.head == w.last)
    then throws logic_error
    else if not (w.back == w.last)
    then throws logic_error
    else if leb (size w) n
    then throws length_error
    else returns (record w { head = w.head - n; back = w.head - n }, w.head - n)

-- `align` is a power of two, as asserted, so that the mask rounds down to a multiple.
unfoldable pub bump_down : ℕ → ℕ → Space → Outcome ℕ
bump_down n align w =
    let ip = align * ((w.head - n) / align) in
    if ltb (w.head - w.front) n
    then throws bad_alloc
    else if ltb ip w.front
    then throws bad_alloc
    else returns ip

-- The part of `emplace` and `push_array` that concerns the block; `n` is the size of the object.
unfoldable pub placed : Outcome ℕ → Space → Outcome (Space × ℕ)
placed (throws t) w = throws t
placed (returns p) w =
    returns (record w { head = p; objects = record { at = p; next = w.head } ∷ w.objects }, p)

unfoldable pub emplace : ℕ → ℕ → Space → Outcome (Space × ℕ)
emplace n align w = placed (bump_down n align w) w

-- The three ways to take storage.
pub data Request : Type 0 where
  from_front from_back : ℕ → Request
  object : ℕ → ℕ → Request

unfoldable pub request : Request → Space → Outcome (Space × ℕ)
request (from_front n) w = reserve_front n w
request (from_back n) w = reserve_back n w
request (object n align) w = emplace n align w

-- The destructors of the objects give nothing back to the block.
unfoldable pub clear : Space → Space
clear w =
    if w.allocated
    then record w { front = w.begin; head = w.last; back = w.last; objects = [] }
    else w

-- `other` is left without a block.
unfoldable pub move_from : Space → Space × Space
move_from w = (
  record w { head = w.last },
  record w { allocated = false; begin = 0; front = 0; head = 0; back = 0; last = 0; objects = [] },
)

-- `overhead` is `sizeof(U)`, `align` is `alignof(::max_align_t)`, `n` octets are the elements.
unfoldable pub push_array : ℕ → ℕ → ℕ → Space → Outcome (Space × ℕ)
push_array overhead align n w = placed (bump_down (overhead + n) align w) w
