-- ===== src/Sync/Objects.antt =====
-- The functions of src/pthread.c and src/semaphore.c that make, destroy and read an object. A pointer
-- is what it points to, or `none` if it is null; the result is the code and the object afterwards.
use neoos_libneoos.Base.{ℕ, Bool, Option, none, some, if◌then◌else◌}
use neoos_libneoos.Base.Int.{ℤ, pos, minus, eqb_ℤ, signed32}

-- -EINVAL
abbrev pub rc_einval : ℤ
rc_einval = minus 22

-- `attr` is whether the attribute pointer is not null.
unfoldable pub pthread_mutex_init : Option ℕ → Bool → ℤ × Option ℕ
pthread_mutex_init none attr = (rc_einval, none)
pthread_mutex_init (some state) attr = if attr then (rc_einval, some state) else (pos 0, some 0)

unfoldable pub pthread_mutex_destroy : Option ℕ → ℤ × Option ℕ
pthread_mutex_destroy none = (rc_einval, none)
pthread_mutex_destroy (some state) = (pos 0, some state)

unfoldable pub pthread_cond_init : Option ℕ → Bool → ℤ × Option ℕ
pthread_cond_init none attr = (rc_einval, none)
pthread_cond_init (some seq) attr = if attr then (rc_einval, some seq) else (pos 0, some 0)

unfoldable pub pthread_cond_destroy : Option ℕ → ℤ × Option ℕ
pthread_cond_destroy none = (rc_einval, none)
pthread_cond_destroy (some seq) = (pos 0, some seq)

-- `sem_t`
pub record Sem : Type 0 where
  pub value : ℤ
  pub pshared : ℤ

-- `value` is an unsigned int, which `(int)` turns into an int.
unfoldable pub sem_init : Option Sem → ℤ → ℕ → ℤ × Option Sem
sem_init none pshared value = (rc_einval, none)
sem_init (some sem) pshared value =
    (pos 0, some (record { value = signed32 value; pshared = pshared }))

unfoldable pub sem_destroy : Option Sem → ℤ × Option Sem
sem_destroy none = (rc_einval, none)
sem_destroy (some sem) = (pos 0, some sem)

-- `out` is what stands at `value`, if that is not null, before and after.
unfoldable pub sem_getvalue : Option Sem → Option ℤ → ℤ × Option ℤ
sem_getvalue none out = (rc_einval, out)
sem_getvalue (some sem) none = (rc_einval, none)
sem_getvalue (some sem) (some old) = (pos 0, some sem.value)

unfoldable pub pthread_equal : ℤ → ℤ → ℤ
pthread_equal a b = if eqb_ℤ a b then pos 1 else pos 0
