-- ===== src/Shimgen/Phdr/Source.antt =====
-- The C file of `_elf_phdr_compat_source` of src/il2cppapk2ios/shimgen.py around the array.
use il2cppapk2ios.Elf.{Elf64}
use il2cppapk2ios.Shimgen.{join_lines}
use il2cppapk2ios.Shimgen.Phdr.{phdr_table}
use il2cppapk2ios.Common.{ℕ, List, [], ◌∷◌, ◌++◌}
use il2cppapk2ios.Common.Text.{codes}

abbrev pub before_lines : List (List ℕ)
before_lines =
    codes "#include <dlfcn.h>"
    ∷ (codes "#include <stddef.h>"
        ∷ (codes "#include <stdint.h>"
            ∷ (codes "#include <string.h>"
                ∷ ([]
                    ∷ (codes "typedef struct {"
                        ∷ (codes "    uint32_t p_type;"
                            ∷ (codes "    uint32_t p_flags;"
                                ∷ (codes "    uint64_t p_offset;"
                                    ∷ (codes "    uint64_t p_vaddr;"
                                        ∷ (codes "    uint64_t p_paddr;"
                                            ∷ (codes "    uint64_t p_filesz;"
                                                ∷ (codes "    uint64_t p_memsz;"
                                                    ∷ (codes "    uint64_t p_align;"
                                                        ∷ (codes "} a2i_elf64_phdr;"
                                                            ∷ ([]
                                                            ∷ (codes "typedef struct {"
                                                            ∷ (codes "    uintptr_t dlpi_addr;"
                                                            ∷ (codes "    const char *dlpi_name;"
                                                            ∷ (codes
                                                            "    const a2i_elf64_phdr *dlpi_phdr;"
                                                            ∷ (codes "    uint16_t dlpi_phnum;"
                                                            ∷ (codes "    uint16_t _pad0;"
                                                            ∷ (codes "    uint32_t _pad1;"
                                                            ∷ (codes "    uint64_t dlpi_adds;"
                                                            ∷ (codes "    uint64_t dlpi_subs;"
                                                            ∷ (codes "    size_t dlpi_tls_modid;"
                                                            ∷ (codes "    void *dlpi_tls_data;"
                                                            ∷ (codes "} a2i_dl_phdr_info;"
                                                            ∷ ([]
                                                            ∷ (codes
                                                            "static const a2i_elf64_phdr k_original_phdrs[] = {"
                                                            ∷ [])))))))))))))))))))))))))))))

abbrev pub after_lines : List (List ℕ)
after_lines =
    codes "};"
    ∷ ([]
        ∷ (codes "int a2i_dl_iterate_phdr("
            ∷ (codes "    int (*callback)(a2i_dl_phdr_info *, size_t, void *),"
                ∷ (codes "    void *data"
                    ∷ (codes ") {"
                        ∷ (codes "    if (callback == NULL) {"
                            ∷ (codes "        return 0;"
                                ∷ (codes "    }"
                                    ∷ ([]
                                        ∷ (codes "    Dl_info image = {0};"
                                            ∷ (codes
                                                  "    void *caller = __builtin_return_address(0);"
                                                ∷ (codes
                                                      "    if (dladdr(caller, &image) == 0 || image.dli_fbase == NULL) {"
                                                    ∷ (codes "        return 0;"
                                                        ∷ (codes "    }"
                                                            ∷ ([]
                                                            ∷ (codes "    a2i_dl_phdr_info info;"
                                                            ∷ (codes
                                                            "    memset(&info, 0, sizeof(info));"
                                                            ∷ (codes
                                                            "    info.dlpi_addr = (uintptr_t)image.dli_fbase + 0x10000ULL;"
                                                            ∷ ((codes
                                                            "    info.dlpi_name = image.dli_fname ? image.dli_fname : "
                                                            ++ (0x22 ∷ ((0x22 ∷ (codes ";")))))
                                                            ∷ (codes
                                                            "    info.dlpi_phdr = k_original_phdrs;"
                                                            ∷ (codes
                                                            "    info.dlpi_phnum = (uint16_t)("
                                                            ∷ (codes
                                                            "        sizeof(k_original_phdrs) / sizeof(k_original_phdrs[0])"
                                                            ∷ (codes "    );"
                                                            ∷ ([]
                                                            ∷ (codes
                                                            "    return callback(&info, sizeof(info), data);"
                                                            ∷ (codes "}"
                                                            ∷ []))))))))))))))))))))))))))

-- The text ends with a line break.
unfoldable pub elf_phdr_compat_source : Elf64 → List ℕ
unfolding phdr_table join_lines
elf_phdr_compat_source elf =
    join_lines (before_lines ++ (phdr_table elf ∷ (after_lines ++ ([] ∷ []))))
