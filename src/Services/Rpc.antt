-- ===== src/Services/Rpc.antt =====
-- What a call of a service returns: a reply or an error. gRPC is not modelled: an error is what
-- `status.FromError` makes of it, a code with a message or an error of another kind. The message
-- that `fmt` formats is kept as the format and its argument.
use cpsc.Common.{ℕ, ◌≡◌, refl, ◌⊎◌, inl, inr, Option, some, List}
use Prim.Native.String.{String}

pub data Code : Type 0 where
  internal invalid_argument not_found unavailable failed_precondition : Code
  deadline_exceeded canceled unknown : Code

mutual
  pub data Message : Type 0 where
    literal : String → Message
    formatted : String → ℕ → Message
    wrapping : String → RpcError → Message

  pub data RpcError : Type 0 where
    grpc : Code → Message → RpcError
    plain_error : Message → RpcError

pub data Reply {ℓ} (A : Type ℓ) : Type ℓ where
  value : A → Reply A
  failure : RpcError → Reply A

pub Reply-cases {ℓ} :
    {A : Type ℓ} (r : Reply A) → ((a : A) × (r ≡ value a)) ⊎ ((e : RpcError) × (r ≡ failure e))
Reply-cases (value a) = inl (a, refl)
Reply-cases (failure e) = inr (e, refl)

-- A user and a video as the services store them, with the fields that the code reads. The
-- coefficients are a Go map, here a list of keys and values.
abbrev pub Coefficients : Type 0
Coefficients = List (ℕ × ℕ)

pub record UserInfo : Type 0 where
  pub user_id : ℕ
  pub user_coefficients : Coefficients
  pub subscribed_to : List ℕ
  pub liked_videos : List ℕ

pub record VideoInfo : Type 0 where
  pub video_id : ℕ
  pub video_coefficients : Coefficients

abbrev pub user_batch_format : String
user_batch_format = "UserService: user_ids exceeded the max batch size %d"

abbrev pub video_batch_format : String
video_batch_format = "VideoService: video_ids exceeded the max batch size %d"

-- `fmt.Sscanf` with a format that ends in `%d`: it reads back what `Sprintf` wrote by the same
-- format.
pub record Scan : Type 0 where
  pub sscanf : String → Message → Option ℕ
  pub scans : (f : String) (n : ℕ) → sscanf f (formatted f n) ≡ some n
