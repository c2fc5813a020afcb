-- ===== src/Process/Host.antt =====
-- What the handlers of cmd/run/engine/process ask of the kernel, the file system, the clock and the
-- sockets' counterparts. Each answer may change the world, so no two need agree.
use subtrace_docker_wireshar.Base.{ℕ, Bool, List, Option}
use Prim.Native.String.{String}
use subtrace_docker_wireshar.Event.{Event}
use subtrace_docker_wireshar.Socket.State.{State, Sockname}
use subtrace_docker_wireshar.Socket.Bind.{BindWorld}
use subtrace_docker_wireshar.Socket.Connect.{ConnectWorld, Dial}
use subtrace_docker_wireshar.Socket.Listen.{ListenWorld, AcceptWorld}
use subtrace_docker_wireshar.Process.Memory.{Memory}

-- A system call that gives a descriptor, an errno, or an error that is no errno.
pub data Opened : Type 0 where
  opened : ℕ → Opened
  open_errno : ℕ → Opened
  open_error : Opened

-- What /proc says of a process, each fact where it can be read, as the text of its tag; `config` is
-- the template of the configuration, and `user` a user's name or number.
pub record Facts : Type 0 where
  pub config : Event
  pub pid : String
  pub exe_name : Option String
  pub exe_size : Option String
  pub command_line : Option String
  pub user : Option String

-- How a Connect goes on after its start: what becomes of the dial, the state that another goroutine
-- stores meanwhile, and what connect(2) to the dummy listener says.
pub record DialWorld : Type 0 where
  pub dial : Dial
  pub meddled : Option State
  pub dummy_errno : ℕ

-- Files: the TLS switch and the known paths, the certificate's bytes, and what the system calls say.
-- `stat_size_at` and `statx_size_at` are where the size is in the two structures.
pub record Files (W : Type 0) : Type 0 where
  pub enabled : Bool
  pub known : List (List ℕ)
  pub pem : List ℕ
  pub stat_size_at : ℕ
  pub statx_size_at : ℕ
  pub readlink_cwd : W → Option (List ℕ) × W
  pub readlink_fd : ℕ → W → Option (List ℕ) × W
  pub join : List ℕ → List ℕ → List ℕ
  pub read_file : List ℕ → W → Option (List ℕ) × W
  pub memfd_create : List ℕ → W → Option ℕ × W
  pub write : List ℕ → W → Bool × W
  pub lseek : W → Bool × W
  pub fstatat : List ℕ → ℕ → W → Option (List ℕ) × W
  pub statx : ℕ → List ℕ → ℕ → ℕ → W → Option (List ℕ) × W

pub record Host (W : Type 0) : Type 0 where
  pub memory : Memory W
  pub files : Files W
  pub pidfd_getfd : ℕ → W → Opened × W
  pub facts : W → Facts × W
  -- the time and the random id of a new event
  pub stamp : W → (String × String) × W
  pub close_errno : W → ℕ × W
  pub dup : ℕ → W → Opened × W
  -- socket(2) with its descriptor and the inode's number from fstat(2)
  pub socket : ℕ → ℕ → W → Option (ℕ × ℕ) × W
  pub bind_world : W → BindWorld × W
  pub connect_world : W → ConnectWorld × W
  pub dial_world : W → DialWorld × W
  pub listen_world : W → ListenWorld × W
  pub accept_world : W → AcceptWorld × W
  pub sockname : W → Sockname × W
