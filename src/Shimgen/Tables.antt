-- ===== src/Shimgen/Tables.antt =====
-- The symbol tables of src/il2cppapk2ios/shimgen.py.
use il2cppapk2ios.Common.{ℕ, List, [], ◌∷◌, map}
use il2cppapk2ios.Common.Text.{codes}

unfoldable pub direct_symbols : List (List ℕ)
direct_symbols = map codes (
    "__cxa_atexit"
    ∷ ("__cxa_finalize"
        ∷ ("abort"
            ∷ ("access"
                ∷ ("acos"
                    ∷ ("acosf"
                        ∷ ("atan2"
                            ∷ ("atan2f"
                                ∷ ("atoi"
                                    ∷ ("atol"
                                        ∷ ("bsearch"
                                            ∷ ("calloc"
                                                ∷ ("close"
                                                    ∷ ("cos"
                                                        ∷ ("cosf"
                                                            ∷ ("difftime"
                                                            ∷ ("exit"
                                                            ∷ ("exp2f"
                                                            ∷ ("fmod"
                                                            ∷ ("fmodf"
                                                            ∷ ("free"
                                                            ∷ ("getcwd"
                                                            ∷ ("getenv"
                                                            ∷ ("gethostname"
                                                            ∷ ("getpid"
                                                            ∷ ("gettimeofday"
                                                            ∷ ("isalpha"
                                                            ∷ ("isspace"
                                                            ∷ ("log"
                                                            ∷ ("lseek"
                                                            ∷ ("malloc"
                                                            ∷ ("memchr"
                                                            ∷ ("memcmp"
                                                            ∷ ("memcpy"
                                                            ∷ ("memmove"
                                                            ∷ ("memset"
                                                            ∷ ("modf"
                                                            ∷ ("nanosleep"
                                                            ∷ ("pipe"
                                                            ∷ ("pow"
                                                            ∷ ("powf"
                                                            ∷ ("read"
                                                            ∷ ("readlink"
                                                            ∷ ("realloc"
                                                            ∷ ("sched_yield"
                                                            ∷ ("setenv"
                                                            ∷ ("sin"
                                                            ∷ ("sinf"
                                                            ∷ ("sqrt"
                                                            ∷ ("sqrtf"
                                                            ∷ ("strchr"
                                                            ∷ ("strcmp"
                                                            ∷ ("strcoll"
                                                            ∷ ("strcpy"
                                                            ∷ ("strlcpy"
                                                            ∷ ("strlen"
                                                            ∷ ("strncmp"
                                                            ∷ ("strncpy"
                                                            ∷ ("strrchr"
                                                            ∷ ("strtod"
                                                            ∷ ("strtof"
                                                            ∷ ("strtol"
                                                            ∷ ("strtold"
                                                            ∷ ("strtoul"
                                                            ∷ ("strxfrm"
                                                            ∷ ("tan"
                                                            ∷ ("time"
                                                            ∷ ("tolower"
                                                            ∷ ("towlower"
                                                            ∷ ("towupper"
                                                            ∷ ("unlink"
                                                            ∷ ("unsetenv"
                                                            ∷ ("usleep"
                                                            ∷ ("wcslen"
                                                            ∷ ("wmemchr"
                                                            ∷ ("wmemcpy"
                                                            ∷ ("wmemmove"
                                                            ∷ ("wmemset"
                                                            ∷ ("write"
                                                            ∷ ("btowc"
                                                            ∷ ("clock"
                                                            ∷ ("closedir"
                                                            ∷ ("dladdr"
                                                            ∷ ("dlclose"
                                                            ∷ ("fclose"
                                                            ∷ ("fileno"
                                                            ∷ ("fopen"
                                                            ∷ ("fputc"
                                                            ∷ ("fputs"
                                                            ∷ ("fscanf"
                                                            ∷ ("ftruncate"
                                                            ∷ ("fwrite"
                                                            ∷ ("gmtime"
                                                            ∷ ("inet_ntop"
                                                            ∷ ("inet_pton"
                                                            ∷ ("iswctype"
                                                            ∷ ("localtime"
                                                            ∷ ("mbrtowc"
                                                            ∷ ("mkdir"
                                                            ∷ ("mktime"
                                                            ∷ ("mprotect"
                                                            ∷ ("munmap"
                                                            ∷ ("opendir"
                                                            ∷ ("send"
                                                            ∷ ("setlocale"
                                                            ∷ ("shutdown"
                                                            ∷ ("sprintf"
                                                            ∷ ("strerror"
                                                            ∷ ("strftime"
                                                            ∷ ("sysconf"
                                                            ∷ ("vsnprintf"
                                                            ∷ ("vsprintf"
                                                            ∷ ("wcrtomb"
                                                            ∷ ("wcscoll"
                                                            ∷ ("wcsftime"
                                                            ∷ ("wcsxfrm"
                                                            ∷ ("wctob"
                                                            ∷ ("wctype" ∷ ("writev" ∷ ("poll" ∷ []))
                                                            ))))))))))))))))))))))))))))))))))))))))
                                                            ))))))))))))))))))))))))))))))))))))))))
                                                            ))))))))))))))))))))))))))))))))))))))

unfoldable pub special_symbols : List (List ℕ)
special_symbols = map codes (
    "__errno"
    ∷ ("__google_potentially_blocking_region_begin"
        ∷ ("__google_potentially_blocking_region_end"
            ∷ ("__system_property_get"
                ∷ ("clock_getres" ∷ ("clock_gettime" ∷ ("gettid" ∷ ("memalign" ∷ []))))))))

unfoldable pub posix_symbols : List (List ℕ)
posix_symbols = map codes (
    "__ctype_get_mb_cur_max"
    ∷ ("fstat"
        ∷ ("lstat"
            ∷ ("mmap"
                ∷ ("open"
                    ∷ ("readdir"
                        ∷ ("sem_getvalue"
                            ∷ ("sem_init"
                                ∷ ("sem_post" ∷ ("sem_wait" ∷ ("stat" ∷ ("uname" ∷ []))))))))))))

unfoldable pub elf_signal_symbols : List (List ℕ)
elf_signal_symbols =
    map codes
      ("sigaction" ∷ ("sigdelset" ∷ ("sigfillset" ∷ ("signal" ∷ ("sigsuspend" ∷ ("tgkill" ∷ []))))))

unfoldable pub elf_runtime_symbols : List (List ℕ)
elf_runtime_symbols = map codes ("dl_iterate_phdr" ∷ [])

unfoldable pub runtime_symbols : List (List ℕ)
runtime_symbols = map codes ("setjmp" ∷ ("syscall" ∷ []))

unfoldable pub network_symbols : List (List ℕ)
network_symbols = map codes (
    "connect"
    ∷ ("freeaddrinfo"
        ∷ ("getaddrinfo"
            ∷ ("getnameinfo"
                ∷ ("getsockopt" ∷ ("ioctl" ∷ ("recvfrom" ∷ ("setsockopt" ∷ ("socket" ∷ [])))))))))

unfoldable pub pthread_symbols : List (List ℕ)
pthread_symbols = map codes (
    "pthread_attr_destroy"
    ∷ ("pthread_attr_getstack"
        ∷ ("pthread_attr_init"
            ∷ ("pthread_cond_broadcast"
                ∷ ("pthread_cond_destroy"
                    ∷ ("pthread_cond_init"
                        ∷ ("pthread_cond_signal"
                            ∷ ("pthread_cond_timedwait"
                                ∷ ("pthread_cond_wait"
                                    ∷ ("pthread_condattr_destroy"
                                        ∷ ("pthread_condattr_init"
                                            ∷ ("pthread_condattr_setclock"
                                                ∷ ("pthread_create"
                                                    ∷ ("pthread_detach"
                                                        ∷ ("pthread_getattr_np"
                                                            ∷ ("pthread_getspecific"
                                                            ∷ ("pthread_key_create"
                                                            ∷ ("pthread_key_delete"
                                                            ∷ ("pthread_mutex_destroy"
                                                            ∷ ("pthread_mutex_init"
                                                            ∷ ("pthread_mutex_lock"
                                                            ∷ ("pthread_mutex_unlock"
                                                            ∷ ("pthread_mutexattr_destroy"
                                                            ∷ ("pthread_mutexattr_init"
                                                            ∷ ("pthread_mutexattr_settype"
                                                            ∷ ("pthread_once"
                                                            ∷ ("pthread_self"
                                                            ∷ ("pthread_setspecific"
                                                            ∷ []))))))))))))))))))))))))))))

unfoldable pub stdio_symbols : List (List ℕ)
stdio_symbols =
    map codes ("fclose" ∷ ("fileno" ∷ ("fputc" ∷ ("fputs" ∷ ("fscanf" ∷ ("fwrite" ∷ []))))))

unfoldable pub object_symbols : List (List ℕ)
object_symbols = map codes ("__sF" ∷ ("_ctype_" ∷ []))
